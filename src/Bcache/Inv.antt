-- ===== src/Bcache/Inv.antt =====
-- The blocks in the buffer cache of w3/kernel/bio.c, and the callers of its functions.
use os_t.Prelude.{
  ℕ, ◌+◌, ◌<◌, ◌≡◌, refl, sym, subst, ap₂, ◌∙◌, ◌≢◌, inl, inr, true, false, Option, none, some,
  List, ◌==◌, Bool-cases, arith,
}
use os_t.Prelude.Run.{Run, ok, panic}
use os_t.Bcache.{nbuf, head, Buf, Bcache, set_buf, is_block, is_unused, add_ref, recycle, bget}
use os_t.Bcache.Walk.{
  walk_lem, find, find-some, find-none, rev, Chain-rev, Fresh-rev, length-rev, mem-rev, rev-mem,
}
use os_t.Bcache.Links.{IsRing, Full}

-- The bytes of a buffer are those of its block on the disk.
abbrev pub Clean : Bcache → Buf → Type 0
Clean c v = v.bytes ≡ c.disk v.dev v.blockno

-- Every buffer that nobody refers to is not valid, or as the disk.
abbrev pub AllClean : Bcache → Type 0
AllClean c = (i : ℕ) → i < nbuf → (c.buf i).refcnt ≡ 0 → (c.buf i).valid ≡ true → Clean c (c.buf i)

-- No block is in two buffers. Device 0 is none, it stands in the buffers that were never used.
pub record Sound (c : Bcache) : Type 0 where
  pub unique :
      (i j : ℕ)
      → i < nbuf
      → j < nbuf
      → (c.buf i).dev ≢ 0
      → (c.buf i).dev ≡ (c.buf j).dev
      → (c.buf i).blockno ≡ (c.buf j).blockno
      → i ≡ j
  pub referred : (i : ℕ) → i < nbuf → (c.buf i).refcnt ≢ 0 → (c.buf i).dev ≢ 0
  pub filled : (i : ℕ) → i < nbuf → (c.buf i).valid ≡ true → (c.buf i).dev ≢ 0

pub record Inv (c : Bcache) : Type 0 where
  pub order : List ℕ
  pub ring : IsRing c order
  pub full : Full order
  pub sound : Sound c

-- What a buffer may become.
pub record Allowed (c : Bcache) (b : ℕ) (v : Buf) : Type 0 where
  pub alone :
      (j : ℕ) → j < nbuf → j ≢ b → v.dev ≢ 0 → (c.buf j).dev ≡ v.dev → (c.buf j).blockno ≢ v.blockno
  pub has_dev : v.refcnt ≢ 0 → v.dev ≢ 0
  pub has_block : v.valid ≡ true → v.dev ≢ 0

pub set_buf-Sound : (b : ℕ) (v : Buf) (c : Bcache) → Sound c → Allowed c b v → Sound (set_buf b v c)
set_buf-Sound b v c s a = record {
  unique = λ i j li lj nz ed eb. elim (Bool-cases (b == i)) [
    | inl bi ↦ elim (Bool-cases (b == j)) [
      | inl bj ↦ ground arith
      | inr bj ↦ absurd (a.alone j lj (ground arith) (ground arith) (ground arith) (ground arith))
    ]
    | inr bi ↦ elim (Bool-cases (b == j)) [
      | inl bj ↦ absurd (a.alone i li (ground arith) (ground arith) (ground arith) (ground arith))
      | inr bj ↦ s.unique i j li lj (ground arith) (ground arith) (ground arith)
    ]
  ];
  referred = λ i li. elim (Bool-cases (b == i)) [
    | inl e ↦ rw e a.has_dev
    | inr e ↦ rw e (s.referred i li)
  ];
  filled = λ i li. elim (Bool-cases (b == i)) [
    | inl e ↦ rw e a.has_block
    | inr e ↦ rw e (s.filled i li)
  ];
}

-- A change that leaves the buffer its block.
pub same_block-Allowed :
    (b : ℕ) (v : Buf) (c : Bcache)
    → Sound c
    → b < nbuf
    → v.dev ≡ (c.buf b).dev
    → v.blockno ≡ (c.buf b).blockno
    → v.dev ≢ 0
    → Allowed c b v
same_block-Allowed b v c s lt ed eb nz = record {
  alone = λ j lj ne nz' fd fb. ne (s.unique j b lj lt (λ z. nz (sym fd ∙ z)) (fd ∙ ed) (fb ∙ eb));
  has_dev = λ r. nz;
  has_block = λ r. nz;
}

set_buf-IsRing :
    (b : ℕ) (v : Buf) (c : Bcache) (xs : List ℕ) → IsRing c xs → IsRing (set_buf b v c) xs
set_buf-IsRing b v c xs r = record { chain = r.chain; distinct = r.distinct; headless = r.headless }

pub set_buf-Inv : (b : ℕ) (v : Buf) (c : Bcache) (inv : Inv c) → Allowed c b v → Inv (set_buf b v c)
set_buf-Inv b v c inv a = record {
  order = inv.order;
  ring = set_buf-IsRing b v c inv.order inv.ring;
  full = inv.full;
  sound = set_buf-Sound b v c inv.sound a;
}

-- What bget ends in: the buffer that has the block, with a reference more; the least recently used
-- buffer without a reference; or a panic, where all have one.
pub data Got (dev blockno : ℕ) (c : Bcache) (order : List ℕ) : Run (ℕ × Bcache) → Type 0 where
  hit :
      (b : ℕ)
      → b < nbuf
      → (c.buf b).dev ≡ dev
      → (c.buf b).blockno ≡ blockno
      → Got dev blockno c order (ok (b, add_ref b c))
  recycled :
      (b : ℕ)
      → b < nbuf
      → ((j : ℕ) → j < nbuf → is_block dev blockno c j ≡ false)
      → find (is_unused c) (rev order) ≡ some b
      → (c.buf b).refcnt ≡ 0
      → Got dev blockno c order (ok (b, recycle dev blockno b c))
  none_left :
      ((j : ℕ) → j < nbuf → is_block dev blockno c j ≡ false)
      → ((j : ℕ) → j < nbuf → (c.buf j).refcnt ≢ 0)
      → Got dev blockno c order panic

-- bget by the results of its two loops.
chosen : ℕ → ℕ → Bcache → Option ℕ → Option ℕ → Run (ℕ × Bcache)
chosen dev blockno c found unused = elim found [
  | some b ↦ ok (b, add_ref b c)
  | none ↦ elim unused [ some b ↦ ok (b, recycle dev blockno b c) | none ↦ panic ]
]

bget-chosen :
    (dev blockno : ℕ) (c : Bcache) (inv : Inv c)
    → bget dev blockno c
      ≡ chosen dev blockno c
          (find (is_block dev blockno c) inv.order)
          (find (is_unused c) (rev inv.order))
unfolding bget chosen
bget-chosen dev blockno c inv =
    ap₂ (chosen dev blockno c)
      (walk_lem (is_block dev blockno c) (nbuf + 1) inv.ring.chain inv.ring.headless (omega arith))
      (walk_lem (is_unused c) (nbuf + 1) (Chain-rev inv.ring.chain)
        (Fresh-rev head inv.order inv.ring.headless) (omega (arith, length-rev inv.order)))

-- bget takes a reference to the buffer that has the block; where none has it, it gives the block the
-- least recently used buffer without a reference, whose content is then not valid; and it panics
-- exactly where there is none.
pub bget-Got :
    (dev blockno : ℕ) (c : Bcache) (inv : Inv c) → Got dev blockno c inv.order (bget dev blockno c)
unfolding chosen
bget-Got dev blockno c inv =
    subst (Got dev blockno c inv.order) (sym (bget-chosen dev blockno c inv))
      (go (find (is_block dev blockno c) inv.order) (find (is_unused c) (rev inv.order)) refl refl)
  where
    absent :
        find (is_block dev blockno c) inv.order ≡ none
        → (j : ℕ) → j < nbuf
        → is_block dev blockno c j ≡ false
    absent e j lj = find-none (is_block dev blockno c) inv.order e (inv.full.complete j lj)

    go :
        (found unused : Option ℕ)
        → find (is_block dev blockno c) inv.order ≡ found
        → find (is_unused c) (rev inv.order) ≡ unused
        → Got dev blockno c inv.order (chosen dev blockno c found unused)
    go (some b) unused e f =
        let (m, t) = find-some (is_block dev blockno c) inv.order e in
        hit b (inv.full.bounded b m) (ground arith) (ground arith)
    go none (some b) e f =
        let (m, t) = find-some (is_unused c) (rev inv.order) f in
        recycled b (inv.full.bounded b (mem-rev inv.order m)) (absent e) f (ground arith)
    go none none e f = none_left (absent e) (λ j lj z.
        let t =
          find-none (is_unused c) (rev inv.order) f (rev-mem inv.order (inv.full.complete j lj)) in
        ground arith)
