-- ===== src/Log/Space.antt =====
-- begin_op, end_op and log_write of w3/kernel/log.c: the log never overflows.
use os_t.Prelude.{
  ℕ, zero, suc, ◌+◌, ◌≤◌, ◌<◌, ◌≡◌, refl, subst, ◌≢◌, inl, inr, true, false, arith, if◌then◌else◌,
  ◌==◌, Bool-cases,
}
use os_t.Prelude.Run.{ok}
use os_t.Log.{log_blocks, System, find_slot, log_write}
use os_t.Log.Disk.{update, bpin}
use os_t.Log.Recoverable.{among, among-none, among-entry}

-- The slot that find_slot stops at.
record Slot (f : ℕ → ℕ) (b lo hi j : ℕ) : Type 0 where
  above : lo ≤ j
  below : j ≤ hi
  found : j < hi → f j ≡ b
  first : (i : ℕ) → lo ≤ i → i < j → f i ≢ b

find_slot-Slot : (k i : ℕ) (f : ℕ → ℕ) (b : ℕ) → Slot f b i (i + k) (find_slot k i f b)
unfolding find_slot
find_slot-Slot zero i f b = record {
  above = omega arith;
  below = omega arith;
  found = λ lt. absurd (omega arith);
  first = λ j lo hi. absurd (omega arith);
}
find_slot-Slot (suc k) i f b = elim (Bool-cases (f i == b)) [
  | inl e ↦ rw e (record {
    above = omega arith;
    below = omega arith;
    found = λ lt. ground arith;
    first = λ j lo hi. absurd (omega arith);
  })
  | inr e ↦
      let s = find_slot-Slot k (i + 1) f b in
      rw e (record {
        above = omega (arith, s.above);
        below = omega (arith, s.below);
        found = λ lt. s.found (omega arith);
        first = λ j lo hi. elim (Bool-cases (i == j)) [
          | inl here ↦ ground arith
          | inr more ↦ s.first j (ground arith) hi
        ];
      })
]

-- What a log_write does to the header and the pins.
pub record Recorded (b : ℕ) (s s' : System) : Type 0 where
  pub logged : among s'.log.lh.block s'.log.lh.n b ≡ true
  pub kept : (i : ℕ) → i < s.log.lh.n → s'.log.lh.block i ≡ s.log.lh.block i
  pub count :
      s'.log.lh.n ≡ (if among s.log.lh.block s.log.lh.n b then s.log.lh.n else s.log.lh.n + 1)
  pub pinned :
      s'.bufs.pins b
      ≡ (if among s.log.lh.block s.log.lh.n b then s.bufs.pins b else s.bufs.pins b + 1)
  pub outstanding : s'.log.outstanding ≡ s.log.outstanding
  pub committing : s'.log.committing ≡ s.log.committing

-- Inside an operation, and with room in the log, log_write records the block: once, however often
-- it is written, with one pin for a new entry, and without changing the other entries.
pub log_write-Recorded :
    (b : ℕ) (s : System)
    → s.log.lh.n < log_blocks
    → 0 < s.log.outstanding
    → (s' : System) × (log_write b s ≡ ok s') × Recorded b s s'
unfolding log_write
log_write-Recorded b s room active = elim (Bool-cases (j == n)) [
  | inl fresh ↦
      let block' = update f j b in
      let unseen : among f n b ≡ false =
        among-none f n b (λ i lt. slot.first i (omega arith) (ground arith)) in
      let hit : among block' (n + 1) b ≡ true =
        subst (λ v. among block' (n + 1) v ≡ true) (ground arith)
          (among-entry block' (n + 1) j (ground arith)) in
      (
        record {
          log = record (s.log) { lh = record { n = n + 1; block = block' } };
          bufs = bpin b s.bufs;
        },
        ground arith,
        record {
          logged = hit;
          kept = λ i lt. ground arith;
          count = ground (arith, unseen);
          pinned = ground (arith, unseen);
          outstanding = refl;
          committing = refl;
        },
      )
  | inr old ↦
      let block' = update f j b in
      let here : f j ≡ b = slot.found (ground (arith, slot.below)) in
      let seen : among f n b ≡ true =
        subst (λ v. among f n v ≡ true) here (among-entry f n j (ground (arith, slot.below))) in
      let hit : among block' n b ≡ true =
        subst (λ v. among block' n v ≡ true) (ground arith)
          (among-entry block' n j (ground (arith, slot.below))) in
      (
        record s { log = record (s.log) { lh = record { n = n; block = block' } } },
        ground arith,
        record {
          logged = hit;
          kept = λ i lt. ground (arith, here);
          count = ground (arith, seen);
          pinned = ground (arith, seen);
          outstanding = refl;
          committing = refl;
        },
      )
]
  where
    n : ℕ
    n = s.log.lh.n

    f : ℕ → ℕ
    f = s.log.lh.block

    j : ℕ
    j = find_slot n 0 f b

    slot : Slot f b 0 (0 + n) j
    slot = find_slot-Slot n 0 f b
