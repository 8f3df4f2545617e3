-- ===== src/Log/Install.antt =====
-- install_trans of w3/kernel/log.c and the write of the header after it, with any number of writes
-- before a crash.
use os_t.Prelude.{
  ℕ, zero, suc, ◌+◌, ◌≤◌, ◌<◌, ◌≡◌, ap, subst, ◌∙◌, ◌≢◌, ◌⊎◌, inl, inr, Bool, true, false, arith,
  if◌then◌else◌, ltb, ◌==◌, Bool-cases,
}
use os_t.Log.{log_blocks, Log, install_loop}
use os_t.Log.Disk.{Block, Blocks, Buffers, put, bwrite, bunpin}
use os_t.Log.Recoverable.{InData, Recoverable}

-- Within the first `n` entries `b` occurs, or not.
find : (f : ℕ → ℕ) (n b : ℕ) → ((i : ℕ) × (i < n) × (f i ≡ b)) ⊎ ((i : ℕ) → i < n → f i ≢ b)
find f zero b = inr (λ i lt. absurd (omega arith))
find f (suc n) b = elim (Bool-cases (f n == b)) [
  | inl e ↦ inl (n, omega arith, ground arith)
  | inr e ↦ elim (find f n b) [
    | inl (i, lt, e') ↦ inl (i, omega arith, e')
    | inr none_of ↦ inr (λ i lt e'. ground (arith, none_of i))
  ]
]

-- A logged transaction: `n` blocks of the log `l`, their new contents, and the header block on
-- disk that lists them.
module _ (l : Log) (new : Blocks) (header : Block) where
  pub record Logged : Type 0 where
    pub few : l.lh.n ≤ log_blocks
    pub count : header 0 ≡ l.lh.n
    pub entries : (i : ℕ) → i < l.lh.n → header (i + 1) ≡ l.lh.block i
    pub homes : (i : ℕ) → i < l.lh.n → InData l.start (l.lh.block i)

  -- The first `tail` blocks are installed, if there is power left; `p` is the power at the start.
  pub record Installing (p tail : ℕ) (s : Buffers) : Type 0 where
    pub head : s.disk l.start ≡ header
    pub cached : (i : ℕ) → i < l.lh.n → s.cache (l.start + i + 1) ≡ new (l.lh.block i)
    pub slots : (i : ℕ) → i < l.lh.n → s.disk (l.start + i + 1) ≡ new (l.lh.block i)
    pub others :
        (b : ℕ) → InData l.start b → ((i : ℕ) → i < l.lh.n → l.lh.block i ≢ b) → s.disk b ≡ new b
    pub done : 0 < s.power → (i : ℕ) → i < tail → s.disk (l.lh.block i) ≡ new (l.lh.block i)
    pub left : p ≤ s.power + tail

  install_step :
      (p tail : ℕ) (s : Buffers)
      → Logged
      → tail < l.lh.n
      → Installing p tail s
      → Installing p
          (suc tail)
          (bwrite (l.lh.block tail) (put (l.lh.block tail) (s.cache (l.start + tail + 1)) s))
  install_step p tail s g lt inv =
      let dst = l.lh.block tail in
      let h = g.homes tail lt in
      record {
        head = ground (arith, inv.head);
        cached = λ i li. ground (arith, g.few, h, inv.cached i li);
        slots = λ i li. ground (arith, g.few, h, inv.slots i li, inv.cached tail lt);
        others = λ b home free. ground (arith, inv.others b home free, free tail lt);
        done = λ p' i li. ground (arith, inv.done (omega arith) i, inv.cached tail lt);
        left = ground (arith, inv.left);
      }

  -- `bunpin` touches no contents.
  Installing-bunpin :
      (p tail b : ℕ) (s : Buffers) → Installing p tail s → Installing p tail (bunpin b s)
  Installing-bunpin p tail b s inv = record {
    head = inv.head;
    cached = inv.cached;
    slots = inv.slots;
    others = inv.others;
    done = inv.done;
    left = inv.left;
  }

  pub install_loop-Installing :
      (k tail p : ℕ) (recovering : Bool) (s : Buffers)
      → Logged
      → tail + k ≡ l.lh.n
      → Installing p tail s
      → Installing p l.lh.n (install_loop k tail recovering l s)
  unfolding install_loop
  install_loop-Installing zero tail p recovering s g e inv =
      let e' : tail ≡ l.lh.n = omega arith in subst (λ t. Installing p t s) e' inv
  install_loop-Installing (suc k) tail p recovering s g e inv =
      let dst = l.lh.block tail in
      let copied = bwrite dst (put dst (s.cache (l.start + tail + 1)) s) in
      let inv' : Installing p (suc tail) copied = install_step p tail s g (omega arith) inv in
      let next : suc tail ≡ tail + 1 = omega arith in
      let inv1 : Installing p (tail + 1) copied = subst (λ t. Installing p t copied) next inv' in
      install_loop-Installing k (tail + 1) p recovering (unpinned recovering copied) g (omega arith)
        (unpinned-Installing recovering copied inv1)
    where
      unpinned : Bool → Buffers → Buffers
      unpinned r c = if r then c else bunpin (l.lh.block tail) c

      unpinned-Installing :
          (r : Bool) (c : Buffers)
          → Installing p (tail + 1) c
          → Installing p (tail + 1) (unpinned r c)
      unpinned-Installing true c i = i
      unpinned-Installing false c i = Installing-bunpin p (tail + 1) (l.lh.block tail) c i

  -- A crash during the installation leaves a disk from which it can be repeated.
  Installing-Recoverable :
      (p tail : ℕ) (s : Buffers) → Logged → Installing p tail s → Recoverable l.start new s.disk
  Installing-Recoverable p tail s g inv = record {
    few = ground (arith, word 0, g.count, g.few);
    homes = λ i lt. rw (entry i (inside lt)) (g.homes i (inside lt));
    slots = λ i lt. rw (entry i (inside lt)) (inv.slots i (inside lt));
    others = λ b home free.
        inv.others b home (λ i lt e. free i (omega (arith, word 0, g.count)) (entry i lt ∙ e));
  }
    where
      word : (j : ℕ) → s.disk l.start j ≡ header j
      word j = ap (λ b. b j) inv.head

      inside : {i : ℕ} → i < s.disk l.start 0 → i < l.lh.n
      inside lt = omega (arith, word 0, g.count)

      entry : (i : ℕ) → i < l.lh.n → s.disk l.start (i + 1) ≡ l.lh.block i
      entry i lt = word (i + 1) ∙ g.entries i lt

  -- Writing the empty header after all blocks are installed leaves a recoverable disk whatever the
  -- power, and an empty log if there was power for all the writes.
  pub erase-Recoverable :
      (p : ℕ) (s : Buffers) (w : Block)
      → Logged
      → Installing p l.lh.n s
      → w 0 ≡ 0
      → let d = (bwrite l.start (put l.start w s)).disk in
        Recoverable l.start new d × (l.lh.n < p → d l.start 0 ≡ 0)
  erase-Recoverable p s w g inv z = elim (Bool-cases (ltb 0 s.power)) [
    | inl on ↦ rw on (
      record {
        few = ground arith;
        homes = λ i lt. absurd (ground arith);
        slots = λ i lt. absurd (ground arith);
        others = λ b home _. elim (find l.lh.block l.lh.n b) [
          | inl (i, lt, e) ↦ ground (arith, inv.done (ground arith) i lt)
          | inr free ↦ ground (arith, inv.others b home free)
        ];
      },
      λ lt. ground arith,
    )
    | inr off ↦
        rw off (Installing-Recoverable p l.lh.n s g inv, λ lt. absurd (ground (arith, inv.left)))
  ]
