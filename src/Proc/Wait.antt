-- ===== src/Proc/Wait.antt =====
-- kwait of w3/kernel/proc.c: what one pass over the table finds.
use os_t.Prelude.{
  ℕ, zero, suc, ◌+◌, ◌≤◌, ◌<◌, ◌≡◌, ◌≢◌, refl, sym, ap, subst, ◌∙◌, ◌⊎◌, inl, inr, Bool, true,
  false, ◌&&◌, ◌||◌, not, Option, none, some, arith, if◌then◌else◌, ◌==◌, Bool-cases,
}
use os_t.Proc.{nproc, zombie, same_state, Kernel, is_parent, freeproc}
use os_t.Proc.Exit.{Waited, reaped, copy_failed, childless, waiting, wait_scan, kwait}

abbrev is_child : ℕ → Kernel → ℕ → Bool
is_child p k i = is_parent ((k.proc i).parent) p

-- A child that has exited.
pub record DeadChild (p : ℕ) (k : Kernel) (i : ℕ) : Type 0 where
  pub inside : i < nproc
  pub child : is_parent ((k.proc i).parent) p ≡ true
  pub dead : same_state ((k.proc i).state) zombie ≡ true

abbrev is_dead : ℕ → Kernel → ℕ → Bool
is_dead p k i = is_child p k i && same_state ((k.proc i).state) zombie

-- The first child from `lo` on that has exited.
pub record First (p lo : ℕ) (k : Kernel) (i : ℕ) : Type 0 where
  pub place : lo ≤ i
  pub child : DeadChild p k i
  pub before : (j : ℕ) → lo ≤ j → j < i → is_dead p k j ≡ false

-- What a scan from `lo` on promises; `kids` is whether a child has been met before.
abbrev Found : ℕ → Bool → ℕ → ℕ → ℕ → Bool → Kernel → Waited × Kernel → Type 0
Found addr copied p lo hi kids k (reaped pid, k') =
    ((addr ≡ 0) ⊎ (copied ≡ true))
    × ((i : ℕ) × First p lo k i × (pid ≡ (k.proc i).pid) × (k' ≡ freeproc i k))
Found addr copied p lo hi kids k (copy_failed, k') =
    (k' ≡ k) × (addr ≢ 0) × (copied ≡ false) × ((i : ℕ) × First p lo k i)
Found addr copied p lo hi kids k (childless, k') =
    (k' ≡ k) × (kids ≡ false) × ((i : ℕ) → lo ≤ i → i < hi → is_child p k i ≡ false)
Found addr copied p lo hi kids k (waiting, k') =
    (k' ≡ k)
    × ((kids ≡ true) ⊎ ((i : ℕ) × (lo ≤ i) × (i < hi) × (is_child p k i ≡ true)))
    × ((i : ℕ) → lo ≤ i → i < hi → is_dead p k i ≡ false)

First-cons :
    (p lo i : ℕ) (k : Kernel) → is_dead p k lo ≡ false → First p (lo + 1) k i → First p lo k i
First-cons p lo i k alive first = record {
  place = (let a = first.place in omega arith);
  child = first.child;
  before = λ j le lt. elim (Bool-cases (lo == j)) [
    | inl here ↦ let same : lo ≡ j = ground arith in subst (λ x. is_dead p k x ≡ false) same alive
    | inr past ↦ first.before j (ground arith) lt
  ];
}

Found-cons :
    (addr : ℕ) (copied : Bool) (p lo hi : ℕ) (kids : Bool) (k : Kernel) (r : Waited × Kernel)
    → lo < hi
    → is_dead p k lo ≡ false
    → Found addr copied p (lo + 1) hi (kids || is_child p k lo) k r
    → Found addr copied p lo hi kids k r
Found-cons addr copied p lo hi kids k (reaped pid, k') lt alive (how, (i, first, pid_of, freed)) =
    (how, (i, First-cons p lo i k alive first, pid_of, freed))
Found-cons addr copied p lo hi kids k (copy_failed, k') lt alive (same, there, bad, (i, first)) =
    (same, there, bad, (i, First-cons p lo i k alive first))
Found-cons addr copied p lo hi kids k (childless, k') lt alive (same, no_kids, rest) = (
  same,
  ground arith,
  λ i above below. elim (Bool-cases (lo == i)) [
    | inl here ↦ ground arith
    | inr past ↦ rest i (ground arith) below
  ],
)
Found-cons addr copied p lo hi kids k (waiting, k') lt alive (same, kid, rest) = (
  same,
  elim kid [
    | inl seen ↦ elim (Bool-cases kids) [
      | inl before ↦ inl before
      | inr not_before ↦ inr (lo, omega arith, lt, ground arith)
    ]
    | inr (i, above, below, child) ↦ inr (i, omega arith, below, child)
  ],
  λ i above below. elim (Bool-cases (lo == i)) [
    | inl here ↦ ground arith
    | inr past ↦ rest i (ground arith) below
  ],
)

copied_out :
    (addr : ℕ) (copied : Bool)
    → (not (addr == 0) && not copied) ≡ false
    → (addr ≡ 0) ⊎ (copied ≡ true)
copied_out addr true h = inr refl
copied_out addr false h = inl (ground arith)

wait_scan-Found :
    (n i hi : ℕ) (kids : Bool) (addr : ℕ) (copied : Bool) (p : ℕ) (k : Kernel)
    → i + n ≡ hi
    → hi ≤ nproc
    → Found addr copied p i hi kids k (wait_scan n i kids addr copied p k)
unfolding wait_scan
wait_scan-Found zero i hi true addr copied p k e le =
    (refl, inl refl, λ j above below. absurd (omega arith))
wait_scan-Found zero i hi false addr copied p k e le =
    (refl, refl, λ j above below. absurd (omega arith))
wait_scan-Found (suc n) i hi kids addr copied p k e le =
    elim (Bool-cases (is_child p k i && same_state ((k.proc i).state) zombie)) [
      | inl dead ↦
          let d : DeadChild p k i = record {
            inside = omega arith;
            child = ground arith;
            dead = ground arith;
          } in
          let first : First p i k i = record {
            place = omega arith;
            child = d;
            before = λ j above below. absurd (omega arith);
          } in
          elim (Bool-cases (not (addr == 0) && not copied)) [
            | inl failed ↦
                rw (dead, failed) (refl, (λ z. absurd (ground arith)), ground arith, (i, first))
            | inr fine ↦ rw (dead, fine) (copied_out addr copied fine, (i, first, refl, refl))
          ]
      | inr alive ↦ rw alive (
          Found-cons addr copied p i hi kids k
            (wait_scan n (i + 1) (kids || is_child p k i) addr copied p k) (omega arith) alive
            (wait_scan-Found n (i + 1) hi (kids || is_child p k i) addr copied p k (omega arith)
              le))
    ]

-- What a pass of kwait by `p` means, for the address `addr` to which the status goes and for whether
-- copyout succeeds.
abbrev pub Meaning : ℕ → ℕ → Bool → Kernel → Option (Option ℕ) × Kernel → Type 0
Meaning addr p copied k (some (some pid), k') =
    ((addr ≡ 0) ⊎ (copied ≡ true))
    × ((i : ℕ) × First p 0 k i × (pid ≡ (k.proc i).pid) × (k' ≡ freeproc i k))
Meaning addr p copied k (some none, k') =
    (k' ≡ k)
    × (((i : ℕ) → i < nproc → is_child p k i ≡ false)
        ⊎ (((k.proc p).killed ≡ true) × ((i : ℕ) → i < nproc → is_dead p k i ≡ false))
        ⊎ ((addr ≢ 0) × (copied ≡ false) × ((i : ℕ) × First p 0 k i)))
Meaning addr p copied k (none, k') =
    (k' ≡ k)
    × ((k.proc p).killed ≡ false)
    × ((i : ℕ) × (i < nproc) × (is_child p k i ≡ true))
    × ((i : ℕ) → i < nproc → is_dead p k i ≡ false)

-- A pass of kwait reaps the first child of the table that has exited, returns its pid and frees exactly
-- it, where the address for the status is 0 or the status is copied there. Otherwise the table stays as it
-- was. The pass returns -1 only where the address is not 0 and the status of that child is not copied, or
-- where no child has exited and the process is killed, or where it has no child; and it goes to sleep only
-- where there is a child, none has exited, and the process is not killed.
pub kwait-Meaning :
    (addr : ℕ) (copied : Bool) (p : ℕ) (k : Kernel)
    → Meaning addr p copied k (kwait addr copied p k)
unfolding kwait
kwait-Meaning addr copied p k =
    go (wait_scan nproc 0 false addr copied p k)
      (wait_scan-Found nproc 0 nproc false addr copied p k (omega arith) (omega arith))
  where
    go :
        (r : Waited × Kernel)
        → Found addr copied p 0 nproc false k r
        → Meaning addr p copied k (
            let (w, k') = r in
            elim w [
              | reaped pid ↦ (some (some pid), k')
              | copy_failed ↦ (some none, k')
              | childless ↦ (some none, k')
              | waiting ↦ (if (k'.proc p).killed then some none else none, k')
            ])
    go (reaped pid, k') f = f
    go (copy_failed, k') (same, there, bad, dead) = (same, inr (inr (there, bad, dead)))
    go (childless, k') f = (f.0, inl (λ i lt. f.2 i (omega arith) lt))
    go (waiting, k') (same, kid, rest) = elim (Bool-cases (k'.proc p).killed) [
      | inl gone ↦ rw gone (
        same,
        inr (inl (sym (ap (λ t. (t.proc p).killed) same) ∙ gone, λ i lt. rest i (omega arith) lt)),
      )
      | inr fine ↦ rw fine (
        same,
        sym (ap (λ t. (t.proc p).killed) same) ∙ fine,
        elim kid [ inl no_kid ↦ absurd (cc) | inr (i, _, lt, child) ↦ (i, lt, child) ],
        λ i lt. rest i (omega arith) lt,
      )
    ]
