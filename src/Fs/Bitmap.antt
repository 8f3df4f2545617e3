-- ===== src/Fs/Bitmap.antt =====
-- The bitmap of blocks in use.
use os_t.Prelude.{
  ℕ, zero, suc, ◌+◌, ◌/◌, ◌%◌, ◌≤◌, ◌<◌, ◌≡◌, subst, ◌∙◌, inl, inr, Bool, true, false, none, some,
  if◌then◌else◌, ltb, ◌==◌, Bool-cases, arith,
}
use os_t.Fs.{bpb, bblock, Fs, set_block, in_use, mark, unmark, find_clear}
use os_t.Fs.Bits.{test_bit-set_bit, test_bit-clear_bit}

-- The block `b` is in use.
abbrev pub used : Fs → ℕ → Bool
used fs b = in_use (fs.blocks (bblock b fs.sb)) (b % bpb)

pub in_use-mark :
    (bytes : ℕ → ℕ) (i j : ℕ) → in_use (mark bytes i) j ≡ (if j == i then true else in_use bytes j)
unfolding in_use mark
in_use-mark bytes i j = elim (Bool-cases (i / 8 == j / 8)) [
  | inl e ↦
      let same : i / 8 ≡ j / 8 = ground arith in
      rw e (test_bit-set_bit (bytes (i / 8)) (i % 8) (j % 8) ∙ rw same (ground arith))
  | inr e ↦ rw e (ground arith)
]

pub in_use-unmark :
    (bytes : ℕ → ℕ) (i j : ℕ)
    → in_use (unmark bytes i) j ≡ (if j == i then false else in_use bytes j)
unfolding in_use unmark
in_use-unmark bytes i j = elim (Bool-cases (i / 8 == j / 8)) [
  | inl e ↦
      let same : i / 8 ≡ j / 8 = ground arith in
      rw e (test_bit-clear_bit (bytes (i / 8)) (i % 8) (j % 8) ∙ rw same (ground arith))
  | inr e ↦ rw e (ground arith)
]

-- A bit of the bitmap that is set.
pub used-mark :
    (b c : ℕ) (fs : Fs)
    → used (set_block (bblock b fs.sb) (mark (fs.blocks (bblock b fs.sb)) (b % bpb)) fs) c
      ≡ (if c == b then true else used fs c)
used-mark b c fs = elim (Bool-cases (bblock b fs.sb == bblock c fs.sb)) [
  | inl e ↦
      let same : bblock b fs.sb ≡ bblock c fs.sb = ground arith in
      rw e (in_use-mark (fs.blocks (bblock b fs.sb)) (b % bpb) (c % bpb) ∙ rw same (ground arith))
  | inr e ↦ rw e (ground arith)
]

-- A bit of the bitmap that is cleared.
pub used-unmark :
    (b c : ℕ) (fs : Fs)
    → used (set_block (bblock b fs.sb) (unmark (fs.blocks (bblock b fs.sb)) (b % bpb)) fs) c
      ≡ (if c == b then false else used fs c)
used-unmark b c fs = elim (Bool-cases (bblock b fs.sb == bblock c fs.sb)) [
  | inl e ↦
      let same : bblock b fs.sb ≡ bblock c fs.sb = ground arith in
      rw e (in_use-unmark (fs.blocks (bblock b fs.sb)) (b % bpb) (c % bpb) ∙ rw same (ground arith))
  | inr e ↦ rw e (ground arith)
]

-- What the inner loop of balloc finds.
pub find_clear-some :
    (n bi b size : ℕ) (bytes : ℕ → ℕ) (j : ℕ)
    → find_clear n bi b size bytes ≡ some j
    → (bi ≤ j)
      × (j < bi + n)
      × (b + j < size)
      × (in_use bytes j ≡ false)
      × ((i : ℕ) → bi ≤ i → i < j → in_use bytes i ≡ true)
unfolding find_clear
find_clear-some zero bi b size bytes j e = absurd (ground arith)
find_clear-some (suc n) bi b size bytes j e = elim (Bool-cases (ltb (b + bi) size)) [
  | inr g ↦ absurd (ground arith)
  | inl g ↦ elim (Bool-cases (in_use bytes bi)) [
    | inr f ↦
        let same : bi ≡ j = ground arith in
        (
          omega arith,
          omega arith,
          ground arith,
          subst (λ k. in_use bytes k ≡ false) same f,
          λ i l h. absurd (omega arith),
        )
    | inl f ↦
        let (l, u, s, c, a) = find_clear-some n (bi + 1) b size bytes j (rw (g, f) at e) in
        (
          omega arith,
          omega arith,
          s,
          c,
          λ i li lt. elim (Bool-cases (bi == i)) [
            | inl h ↦ let same : bi ≡ i = ground arith in subst (λ k. in_use bytes k ≡ true) same f
            | inr h ↦ a i (ground arith) lt
          ],
        )
  ]
]

pub find_clear-none :
    (n bi b size : ℕ) (bytes : ℕ → ℕ) (i : ℕ)
    → find_clear n bi b size bytes ≡ none
    → bi ≤ i
    → i < bi + n
    → b + i < size
    → in_use bytes i ≡ true
unfolding find_clear
find_clear-none zero bi b size bytes i e l u s = absurd (omega arith)
find_clear-none (suc n) bi b size bytes i e l u s = elim (Bool-cases (ltb (b + bi) size)) [
  | inr g ↦ absurd (ground arith)
  | inl g ↦ elim (Bool-cases (in_use bytes bi)) [
    | inr f ↦ absurd (let e' = rw (g, f) at e in ground arith)
    | inl f ↦ elim (Bool-cases (bi == i)) [
      | inl h ↦ let same : bi ≡ i = ground arith in subst (λ k. in_use bytes k ≡ true) same f
      | inr h ↦
          find_clear-none n (bi + 1) b size bytes i (rw (g, f) at e) (ground arith) (omega arith) s
    ]
  ]
]
