-- ===== src/Log/Commit.antt =====
-- commit of w3/kernel/log.c with any number of writes before a crash.
use os_t.Prelude.{
  ℕ, zero, suc, ◌+◌, ◌-◌, ◌*◌, ◌≤◌, ◌<◌, ◌≡◌, refl, ap, subst, ◌∙◌, ◌⊎◌, inl, inr, Bool, true,
  false, arith, if◌then◌else◌, ltb, Bool-cases,
}
use os_t.Log.{
  log_blocks, Log, LogHeader, System, write_blocks, install_loop, write_log_loop, write_head,
  install_trans, write_log, commit,
}
use os_t.Log.Disk.{Block, Blocks, Buffers, update, put, bwrite, bunpin}
use os_t.Log.Recoverable.{
  InData, Recoverable, Holds, Recoverable-Holds, Holds-Recoverable, among, among-entry, among-none,
  write_blocks_lem,
}
use os_t.Log.Install.{Logged, Installing, install_loop-Installing, erase-Recoverable}

-- The contents after the transaction: of a logged block those in the cache, of any other the old.
abbrev pub committed : LogHeader → Blocks → Blocks → Blocks
committed lh cache old b = if among lh.block lh.n b then cache b else old b

module _ (l : Log) (cache0 old : Blocks) (few : l.lh.n ≤ log_blocks)
    (homes : (i : ℕ) → i < l.lh.n → InData l.start (l.lh.block i)) where
  -- The first `tail` blocks are in the log, if there is power left.
  record Copying (p tail : ℕ) (s : Buffers) : Type 0 where
    same : (i : ℕ) → i < l.lh.n → s.cache (l.lh.block i) ≡ cache0 (l.lh.block i)
    cached : (i : ℕ) → i < tail → s.cache (l.start + i + 1) ≡ cache0 (l.lh.block i)
    slots : 0 < s.power → (i : ℕ) → i < tail → s.disk (l.start + i + 1) ≡ cache0 (l.lh.block i)
    others : (b : ℕ) → InData l.start b → s.disk b ≡ old b
    head : s.disk l.start ≡ old l.start
    left : p ≤ s.power + tail

  copy_step :
      (p tail : ℕ) (s : Buffers)
      → tail < l.lh.n
      → Copying p tail s
      → let to = l.start + tail + 1 in
        Copying p (tail + 1) (bwrite to (put to (s.cache (l.lh.block tail)) s))
  copy_step p tail s lt inv = record {
    same = λ i li. ground (arith, few, homes i li, inv.same i li);
    cached = λ i li. ground (arith, inv.cached i, inv.same tail lt);
    slots = λ p' i li. ground (arith, inv.slots (omega arith) i, inv.same tail lt);
    others = λ b home. ground (arith, few, inv.others b home);
    head = ground (arith, inv.head);
    left = ground (arith, inv.left);
  }

  write_log_loop-Copying :
      (k tail p : ℕ) (s : Buffers)
      → tail + k ≡ l.lh.n
      → Copying p tail s
      → Copying p l.lh.n (write_log_loop k tail l s)
  unfolding write_log_loop
  write_log_loop-Copying zero tail p s e inv = subst (λ t. Copying p t s) (omega arith) inv
  write_log_loop-Copying (suc k) tail p s e inv =
      write_log_loop-Copying k (tail + 1) p _ (omega arith) (copy_step p tail s (omega arith) inv)

  -- The block that write_head writes.
  abbrev header : Block → Block
  header w = write_blocks l.lh.n 0 l.lh.block (update w 0 l.lh.n)

  header-Logged : (new : Blocks) (w : Block) → Logged l new (header w)
  header-Logged new w = record {
    few = few;
    count = ground (arith, write_blocks_lem l.lh.n 0 l.lh.block (update w 0 l.lh.n) 0);
    entries =
        λ i lt. ground (arith, write_blocks_lem l.lh.n 0 l.lh.block (update w 0 l.lh.n) (i + 1));
    homes = homes;
  }

  -- The write of the header is the commit: from here on the new contents are found.
  write_head-Installing :
      (p : ℕ) (s : Buffers) (w : Block)
      → Copying p l.lh.n s
      → 0 < s.power
      → Installing l
          (committed l.lh cache0 old)
          (header w)
          (p - l.lh.n - 1)
          0
          (bwrite l.start (put l.start (header w) s))
  write_head-Installing p s w inv on = record {
    head = ground arith;
    cached = λ i lt. ground (arith, inv.cached i lt, among-entry l.lh.block l.lh.n i lt);
    slots = λ i lt. ground (arith, inv.slots on i lt, among-entry l.lh.block l.lh.n i lt);
    others = λ b home free. ground (arith, inv.others b home, among-none l.lh.block l.lh.n b free);
    done = λ p' i lt. absurd (omega arith);
    left = ground (arith, inv.left);
  }

  -- With the power off nothing reaches the disk.
  install_loop-off :
      (k tail : ℕ) (r : Bool) (s : Buffers)
      → s.power ≡ 0
      → ((install_loop k tail r l s).disk ≡ s.disk) × ((install_loop k tail r l s).power ≡ 0)
  unfolding install_loop
  install_loop-off zero tail r s e = (refl, e)
  install_loop-off (suc k) tail true s e = ground (
    arith,
    install_loop-off k (tail + 1) true
        (bwrite (l.lh.block tail) (put (l.lh.block tail) (s.cache (l.start + tail + 1)) s)),
  )
  install_loop-off (suc k) tail false s e = ground (
    arith,
    install_loop-off k (tail + 1) false (
        bunpin (l.lh.block tail)
          (bwrite (l.lh.block tail) (put (l.lh.block tail) (s.cache (l.start + tail + 1)) s))),
  )

  Copying-start : (s : Buffers) → s.cache ≡ cache0 → s.disk ≡ old → Copying s.power 0 s
  Copying-start s c d = record {
    same = λ i lt. ap (λ f. f (l.lh.block i)) c;
    cached = λ i lt. absurd (omega arith);
    slots = λ _ i lt. absurd (omega arith);
    others = λ b home. ap (λ f. f b) d;
    head = ap (λ f. f l.start) d;
    left = omega arith;
  }

  -- The disk when commit is done, or when the machine stopped on the way.
  abbrev Outcome : ℕ → Blocks → Type 0
  Outcome p d =
      let new = committed l.lh cache0 old in
      (Recoverable l.start old d ⊎ Recoverable l.start new d)
      × (2 * l.lh.n + 1 < p → Holds l.start new d × (d l.start 0 ≡ 0))

  abbrev logged : Buffers → Buffers
  logged s = write_log_loop l.lh.n 0 l s

  abbrev headed : Buffers → Buffers
  headed s = bwrite l.start (put l.start (header ((logged s).cache l.start)) (logged s))

  abbrev installed : Buffers → Buffers
  installed s = install_loop l.lh.n 0 false l (headed s)

  abbrev erased : Buffers → Buffers
  erased s = bwrite l.start (put l.start (update ((installed s).cache l.start) 0 0) (installed s))

  phases-Outcome :
      (s : Buffers)
      → s.cache ≡ cache0
      → s.disk ≡ old
      → old l.start 0 ≡ 0
      → Outcome s.power (erased s).disk
  phases-Outcome s c d clean =
      let inv : Copying s.power l.lh.n (logged s) =
        write_log_loop-Copying l.lh.n 0 s.power s (omega arith) (Copying-start s c d) in
      let new = committed l.lh cache0 old in
      elim (Bool-cases (ltb 0 (logged s).power)) [
        | inl on ↦
            let w = (logged s).cache l.start in
            let g : Logged l new (header w) = header-Logged new w in
            let p = s.power - l.lh.n - 1 in
            let i0 : Installing l new (header w) p 0 (headed s) =
              write_head-Installing s.power (logged s) w inv (ground arith) in
            let i1 : Installing l new (header w) p l.lh.n (installed s) =
              install_loop-Installing l new (header w) l.lh.n 0 p false (headed s) g (omega arith)
                i0 in
            let (r, z) =
              erase-Recoverable l new (header w) p (installed s)
                (update ((installed s).cache l.start) 0 0) g i1 (ground arith) in
            (
              inr r,
              λ lt.
                  let z' = z (omega arith) in
                  (Recoverable-Holds l.start new (erased s).disk r z', z'),
            )
        | inr off ↦
            let zero_power : (headed s).power ≡ 0 = ground arith in
            let (same, off') = install_loop-off l.lh.n 0 false (headed s) zero_power in
            let d1 : (erased s).disk ≡ (logged s).disk = ground (arith, same, off') in
            (
              inl (
                  rw d1 (
                    Holds-Recoverable l.start old (logged s).disk inv.others
                      (ap (λ b. b 0) inv.head ∙ clean))),
              λ lt. absurd (ground (arith, inv.left)),
            )
      ]

-- A transaction that commit may write: at most LOGBLOCKS blocks, none of them in the log, and an
-- empty header on disk.
pub record Ready (s : System) : Type 0 where
  pub few : s.log.lh.n ≤ log_blocks
  pub homes : (i : ℕ) → i < s.log.lh.n → InData s.log.start (s.log.lh.block i)
  pub clean : s.bufs.disk s.log.start 0 ≡ 0

-- Wherever the machine stops during commit, the disk is recoverable to the contents before the
-- transaction or to those after it; with power for 2n + 2 writes the data blocks hold the contents
-- after it and the log is empty.
pub commit-Recoverable :
    (s : System)
    → Ready s
    → let new = committed s.log.lh s.bufs.cache s.bufs.disk in
      let d = (commit s).bufs.disk in
      (Recoverable s.log.start s.bufs.disk d ⊎ Recoverable s.log.start new d)
      × (2 * s.log.lh.n + 1 < s.bufs.power → Holds s.log.start new d × (d s.log.start 0 ≡ 0))
unfolding commit write_head install_trans write_log write_blocks
commit-Recoverable s r = elim (Bool-cases (ltb 0 s.log.lh.n)) [
  | inl some_blocks ↦
      rw some_blocks
        (phases-Outcome s.log s.bufs.cache s.bufs.disk r.few r.homes s.bufs refl refl r.clean)
  | inr no_blocks ↦ rw no_blocks (
    inl (Holds-Recoverable s.log.start s.bufs.disk s.bufs.disk (λ b home. refl) r.clean),
    λ lt. (
      λ b home.
          ground (arith, among-none s.log.lh.block s.log.lh.n b (λ i li. absurd (ground arith))),
      r.clean,
    ),
  )
]
