-- ===== src/Bcache/View.antt =====
-- What w3/kernel/bio.c promises its callers: one content for each block.
use os_t.Prelude.{
  ℕ, ◌<◌, ◌≡◌, refl, sym, subst, ap, ap₂, ◌∙◌, ◌≢◌, inl, inr, true, false, ◌&&◌, Option, ◌==◌,
  Bool-cases, arith,
}
use os_t.Bcache.{nbuf, Buf, Bcache, set_buf, recycle, fill}
use os_t.Bcache.Inv.{AllClean, Sound}

-- The block reads as `v`: from the valid buffer that has it, or from the disk if none has.
pub data Views (c : Bcache) (dev blockno : ℕ) (v : ℕ → ℕ) : Type 0 where
  cached :
      (b : ℕ)
      → b < nbuf
      → (c.buf b).valid ≡ true
      → (c.buf b).dev ≡ dev
      → (c.buf b).blockno ≡ blockno
      → (c.buf b).bytes ≡ v
      → Views c dev blockno v
  on_disk :
      ((b : ℕ)
        → b < nbuf
        → (c.buf b).valid ≡ true
        → (c.buf b).dev ≡ dev
        → (c.buf b).blockno ≢ blockno)
      → c.disk dev blockno ≡ v
      → Views c dev blockno v

-- A buffer that stays as it is, but for its holder and its references.
pub record SameBlock (v w : Buf) : Type 0 where
  valid : w.valid ≡ v.valid
  dev : w.dev ≡ v.dev
  blockno : w.blockno ≡ v.blockno
  bytes : w.bytes ≡ v.bytes

pub same_block :
    (v : Buf) (h : Option ℕ) (r : ℕ) → SameBlock v (record v { holder = h; refcnt = r })
same_block v h r = record { valid = refl; dev = refl; blockno = refl; bytes = refl }

pub same-Views :
    {c c' : Bcache} {d n : ℕ} {v : ℕ → ℕ}
    → c'.disk ≡ c.disk
    → ((b : ℕ) → SameBlock (c.buf b) (c'.buf b))
    → Views c d n v
    → Views c' d n v
same-Views {c} {c'} {d} {n} ds same (cached b lt va ed eb ev) =
    let s = same b in cached b lt (s.valid ∙ va) (s.dev ∙ ed) (s.blockno ∙ eb) (s.bytes ∙ ev)
same-Views {c} {c'} {d} {n} ds same (on_disk miss ev) =
    on_disk
      (λ b lt va ed eb.
        let s = same b in miss b lt (sym s.valid ∙ va) (sym s.dev ∙ ed) (sym s.blockno ∙ eb))
      (ap (λ f. f d n) ds ∙ ev)

set_buf-SameBlock :
    (b : ℕ) (w : Buf) (c : Bcache)
    → SameBlock (c.buf b) w
    → (j : ℕ) → SameBlock (c.buf j) ((set_buf b w c).buf j)
set_buf-SameBlock b w c s j = elim (Bool-cases (b == j)) [
  | inl e ↦ let e' : b ≡ j = ground arith in rw e (subst (λ i. SameBlock (c.buf i) w) e' s)
  | inr e ↦ rw e (record { valid = refl; dev = refl; blockno = refl; bytes = refl })
]

-- A reference or a holder more or less.
pub set_buf-Views :
    (b : ℕ) (w : Buf) (c : Bcache) {d n : ℕ} {v : ℕ → ℕ}
    → SameBlock (c.buf b) w
    → Views c d n v
    → Views (set_buf b w c) d n v
set_buf-Views b w c s = same-Views refl (set_buf-SameBlock b w c s)

-- Recycling a buffer that is clean.
pub recycle-Views :
    (dev blockno b : ℕ) (c : Bcache) {d n : ℕ} {v : ℕ → ℕ}
    → Sound c
    → AllClean c
    → b < nbuf
    → (c.buf b).refcnt ≡ 0
    → d ≢ 0
    → Views c d n v
    → Views (recycle dev blockno b c) d n v
recycle-Views dev blockno b c {d} {n} {v} s clean lt z nz (cached i li va ed eb ev) =
    elim (Bool-cases (b == i)) [
      | inl e ↦
          let same : b ≡ i = ground arith in
          on_disk
            (λ j lj vj dj nj. elim (Bool-cases (b == j)) [
              | inl g ↦ absurd (ground arith)
              | inr g ↦
                  let other : i ≡ j =
                    s.unique i j li lj (λ q. nz (sym ed ∙ q)) (ed ∙ sym (rw g at dj))
                      (eb ∙ sym (rw g at nj)) in
                  absurd (ground arith)
            ])
            (let k = clean i li (ap (λ x. (c.buf x).refcnt) (sym same) ∙ z) va in
              ap₂ c.disk (sym ed) (sym eb) ∙ sym k ∙ ev)
      | inr e ↦ cached i li (rw e va) (rw e ed) (rw e eb) (rw e ev)
    ]
recycle-Views dev blockno b c {d} {n} {v} s clean lt z nz (on_disk miss ev) =
    on_disk
      (λ j lj vj dj nj. elim (Bool-cases (b == j)) [
        | inl g ↦ absurd (ground arith)
        | inr g ↦ miss j lj (rw g at vj) (rw g at dj) (rw g at nj)
      ])
      ev

-- Reading a block that no valid buffer has.
read_in-Views :
    (b : ℕ) (c : Bcache) {d n : ℕ} {v : ℕ → ℕ}
    → b < nbuf
    → (c.buf b).valid ≡ false
    → Views c d n v
    → Views
        (set_buf b
          (record (c.buf b) { bytes = c.disk ((c.buf b).dev) ((c.buf b).blockno); valid = true })
          c)
        d
        n
        v
read_in-Views b c lt iv (cached i li va ed eb ev) = elim (Bool-cases (b == i)) [
  | inl e ↦
      let same : b ≡ i = ground arith in
      absurd (let q = ap (λ x. (c.buf x).valid) same in ground arith)
  | inr e ↦ cached i li (rw e va) (rw e ed) (rw e eb) (rw e ev)
]
read_in-Views b c {d} {n} lt iv (on_disk miss ev) =
    elim (Bool-cases ((c.buf b).dev == d && (c.buf b).blockno == n)) [
      | inl e ↦
          let ed : (c.buf b).dev ≡ d = ground arith in
          let eb : (c.buf b).blockno ≡ n = ground arith in
          cached b lt (rw self refl) (rw self ed) (rw self eb) (rw self (ap₂ c.disk ed eb ∙ ev))
      | inr e ↦
          on_disk
            (λ j lj vj dj nj. elim (Bool-cases (b == j)) [
              | inl g ↦ absurd (let dj' = rw g at dj in let nj' = rw g at nj in ground arith)
              | inr g ↦ miss j lj (rw g at vj) (rw g at dj) (rw g at nj)
            ])
            ev
    ]
  where
    self : (b == b) ≡ true
    self = ground arith

pub fill-Views :
    (b : ℕ) (c : Bcache) {d n : ℕ} {v : ℕ → ℕ} → b < nbuf → Views c d n v → Views (fill b c) d n v
unfolding fill
fill-Views b c lt w = elim (Bool-cases ((c.buf b).valid)) [
  | inl e ↦ rw e w
  | inr e ↦ rw e (read_in-Views b c lt e w)
]
