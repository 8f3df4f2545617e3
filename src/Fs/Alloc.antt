-- ===== src/Fs/Alloc.antt =====
-- balloc and bfree.
use os_t.Prelude.{
  ℕ, zero, suc, ◌+◌, ◌-◌, ◌*◌, ◌/◌, ◌%◌, ◌≤◌, ◌<◌, ◌≡◌, refl, subst, ap₂, ◌∙◌, ◌≢◌, inl, inr, true,
  false, if◌then◌else◌, ltb, ◌==◌, Bool-cases, Option-cases, arith,
}
use os_t.Prelude.Run.{Run, ok, panic}
use os_t.Fs.{
  bpb, bblock, Fs, set_block, in_use, mark, unmark, find_clear, bzero, balloc_loop, balloc, bfree,
}
use os_t.Fs.Bitmap.{used, used-unmark, find_clear-some, find_clear-none}

-- What balloc returns, and what it leaves: 0 and no change where all blocks are in use, or the first
-- free block, marked and zeroed.
pub data Allocated (fs : Fs) : ℕ × Fs → Type 0 where
  out_of_blocks : ((c : ℕ) → c < fs.sb.size → used fs c ≡ true) → Allocated fs (0, fs)
  fresh :
      (b : ℕ)
      → b < fs.sb.size
      → used fs b ≡ false
      → ((c : ℕ) → c < b → used fs c ≡ true)
      → Allocated fs
          (b, bzero b (set_block (bblock b fs.sb) (mark (fs.blocks (bblock b fs.sb)) (b % bpb)) fs))

-- The block of the bitmap that begins with block `bpb * q`, and its bit `j`.
bit_place :
    (q j : ℕ) (fs : Fs)
    → j < bpb
    → used fs (bpb * q + j) ≡ in_use (fs.blocks (bblock (bpb * q) fs.sb)) j
bit_place q j fs lt =
    let eb : bblock (bpb * q + j) fs.sb ≡ bblock (bpb * q) fs.sb = omega arith in
    let em : (bpb * q + j) % bpb ≡ j = omega arith in ap₂ (λ x y. in_use (fs.blocks x) y) eb em

fresh_at :
    (q j : ℕ) (fs : Fs)
    → j < bpb
    → bpb * q + j < fs.sb.size
    → used fs (bpb * q + j) ≡ false
    → ((c : ℕ) → c < bpb * q + j → used fs c ≡ true)
    → Allocated fs (
      bpb * q + j,
      bzero
          (bpb * q + j)
          (set_block (bblock (bpb * q) fs.sb) (mark (fs.blocks (bblock (bpb * q) fs.sb)) j) fs),
    )
fresh_at q j fs lt s f a =
    let eb : bblock (bpb * q + j) fs.sb ≡ bblock (bpb * q) fs.sb = omega arith in
    let em : (bpb * q + j) % bpb ≡ j = omega arith in
    subst
      (λ x. Allocated fs (bpb * q + j, bzero (bpb * q + j) (set_block x (mark (fs.blocks x) j) fs)))
      eb
      (subst
        (λ y. Allocated fs (
          bpb * q + j,
          bzero (bpb * q + j) (
              set_block (bblock (bpb * q + j) fs.sb)
                (mark (fs.blocks (bblock (bpb * q + j) fs.sb)) y) fs),
        ))
        em (fresh (bpb * q + j) s f a))

-- All blocks up to a bit of a block of the bitmap are in use.
used_up_to :
    (q k : ℕ) (fs : Fs)
    → k ≤ bpb
    → ((c : ℕ) → c < bpb * q → c < fs.sb.size → used fs c ≡ true)
    → ((i : ℕ)
        → i < k
        → bpb * q + i < fs.sb.size
        → in_use (fs.blocks (bblock (bpb * q) fs.sb)) i ≡ true)
    → (c : ℕ) → c < bpb * q + k
    → c < fs.sb.size
    → used fs c ≡ true
used_up_to q k fs le below here c lc ls = elim (Bool-cases (ltb c (bpb * q))) [
  | inl h ↦ below c (ground arith) ls
  | inr h ↦
      let j : ℕ = c - bpb * q in
      let e : bpb * q + j ≡ c = ground arith in
      subst (λ x. used fs x ≡ true) e
        (bit_place q j fs (omega arith) ∙ here j (omega arith) (omega arith))
]

balloc_loop-Allocated :
    (n q : ℕ) (fs : Fs)
    → fs.sb.size ≤ bpb * (q + n)
    → ((c : ℕ) → c < bpb * q → c < fs.sb.size → used fs c ≡ true)
    → Allocated fs (balloc_loop n (bpb * q) fs)
unfolding balloc_loop
balloc_loop-Allocated zero q fs le below = out_of_blocks (λ c lt. below c (omega arith) lt)
balloc_loop-Allocated (suc n) q fs le below = elim (Bool-cases (ltb (bpb * q) fs.sb.size)) [
  | inr g ↦ rw g (out_of_blocks (λ c lt. below c (ground arith) lt))
  | inl g ↦
      elim (Option-cases
        (find_clear bpb 0 (bpb * q) fs.sb.size (fs.blocks (bblock (bpb * q) fs.sb)))) [
          | inr (j, e) ↦
              let (l, u, s, c, a) =
                find_clear-some bpb 0 (bpb * q) fs.sb.size (fs.blocks (bblock (bpb * q) fs.sb)) j
                  e in
              rw (g, e)
                (fresh_at q j fs (omega arith) s (bit_place q j fs (omega arith) ∙ c) (λ k lk.
                  used_up_to q j fs (omega arith) below (λ i li si. a i (omega arith) li) k lk
                    (omega arith)))
          | inl e ↦
              let step : bpb * (q + 1) ≡ bpb * q + bpb = omega arith in
              rw (g, e)
                (subst (λ x. Allocated fs (balloc_loop n x fs)) step
                  (balloc_loop-Allocated n (q + 1) fs (omega arith) (λ k lk ls.
                    used_up_to q bpb fs (omega arith) below
                      (λ i li si.
                        find_clear-none bpb 0 (bpb * q) fs.sb.size
                          (fs.blocks (bblock (bpb * q) fs.sb)) i e (omega arith) (omega arith) si)
                      k (omega arith) ls)))
        ]
]

-- balloc returns the first free block, with its bit set and its bytes zero, and changes no more; where no
-- block is free it returns 0 and changes nothing.
pub balloc-Allocated : (fs : Fs) → Allocated fs (balloc fs)
unfolding balloc
balloc-Allocated fs =
    balloc_loop-Allocated (fs.sb.size / bpb + 1) 0 fs (omega arith) (λ c lt. absurd (omega arith))

-- What bfree does.
pub data Freed (b : ℕ) (fs : Fs) : Run Fs → Type 0 where
  freed :
      (fs' : Fs)
      → used fs b ≡ true
      → fs'.sb ≡ fs.sb
      → ((c : ℕ) → used fs' c ≡ (if c == b then false else used fs c))
      → ((n : ℕ) → n ≢ bblock b fs.sb → fs'.blocks n ≡ fs.blocks n)
      → Freed b fs (ok fs')
  was_free : used fs b ≡ false → Freed b fs panic

-- bfree clears the bit of a block that is in use, and changes no other bit and no other block of the
-- disk; it panics on a block that is free.
pub bfree-Freed : (b : ℕ) (fs : Fs) → Freed b fs (bfree b fs)
unfolding bfree
bfree-Freed b fs = elim (Bool-cases (used fs b)) [
  | inl e ↦ rw e (
      freed (set_block (bblock b fs.sb) (unmark (fs.blocks (bblock b fs.sb)) (b % bpb)) fs) e refl
        (λ c. used-unmark b c fs) (λ n ne. ground arith))
  | inr e ↦ rw e (was_free e)
]
