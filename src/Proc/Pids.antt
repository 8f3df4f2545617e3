-- ===== src/Proc/Pids.antt =====
-- The pids in the process table of w3/kernel/proc.c, and the calls that give out none.
use os_t.Prelude.{
  ℕ, zero, suc, ◌+◌, ◌≤◌, ◌<◌, ◌≡◌, refl, sym, subst, ap, ◌∙◌, ◌≢◌, inl, inr, Bool, true, false,
  Option, none, some, arith, ◌==◌, Bool-cases,
}
use os_t.Prelude.Run.{ok}
use os_t.Proc.{nproc, unused, same_state, Proc, Kernel, set_proc, scan, freeproc}
use os_t.Proc.Exit.{kexit, kwait}
use os_t.Proc.Death.{Exited, kexit-Exited}
use os_t.Proc.Wait.{Meaning, kwait-Meaning}

-- Where scan stops.
pub scan-some :
    (n i : ℕ) (test : ℕ → Bool) (j : ℕ)
    → scan n i test ≡ some j
    → (i ≤ j) × (j < i + n) × (test j ≡ true)
unfolding scan
scan-some zero i test j e = absurd (cc)
scan-some (suc n) i test j e = elim (Bool-cases (test i)) [
  | inl t ↦ (ground arith, ground arith, ground arith)
  | inr f ↦
      let (a, b, c) = scan-some n (i + 1) test j (ground arith) in (omega arith, omega arith, c)
]

-- Where something passes, scan finds something.
pub scan-finds :
    (n lo i : ℕ) (test : ℕ → Bool)
    → lo ≤ i
    → i < lo + n
    → test i ≡ true
    → (j : ℕ) × (scan n lo test ≡ some j)
unfolding scan
scan-finds zero lo i test above below t = absurd (omega arith)
scan-finds (suc n) lo i test above below t = elim (Bool-cases (test lo)) [
  | inl here ↦ (lo, rw here refl)
  | inr not_here ↦
      let past : lo ≢ i = λ e. ground arith in
      let (j, e) = scan-finds n (lo + 1) i test (omega arith) (omega arith) t in (j, rw not_here e)
]

-- No two processes have the same pid; a free slot has pid 0, and every pid is below nextpid.
pub record PidInv (k : Kernel) : Type 0 where
  pub positive : 0 < k.nextpid
  pub below : (i : ℕ) → i < nproc → (k.proc i).pid < k.nextpid
  pub free : (i : ℕ) → i < nproc → same_state ((k.proc i).state) unused ≡ ((k.proc i).pid == 0)
  pub unique :
      (i j : ℕ)
      → i < nproc
      → j < nproc
      → (k.proc i).pid ≡ (k.proc j).pid
      → (k.proc i).pid ≢ 0
      → i ≡ j

-- A table in which every pid and every free slot is the same.
pub record SameTable (k k' : Kernel) : Type 0 where
  pub pids : (i : ℕ) → i < nproc → (k'.proc i).pid ≡ (k.proc i).pid
  pub frees :
      (i : ℕ)
      → i < nproc
      → same_state ((k'.proc i).state) unused ≡ same_state ((k.proc i).state) unused
  pub next : k'.nextpid ≡ k.nextpid

pub PidInv-same : (k k' : Kernel) → SameTable k k' → PidInv k → PidInv k'
PidInv-same k k' s inv = record {
  positive = omega (arith, s.next, inv.positive);
  below = λ i lt. omega (arith, s.pids i lt, s.next, inv.below i lt);
  free = λ i lt. s.frees i lt ∙ inv.free i lt ∙ ap (λ t. t == 0) (sym (s.pids i lt));
  unique = λ i j li lj e nz.
      inv.unique i j li lj (sym (s.pids i li) ∙ e ∙ s.pids j lj) (λ z. nz (s.pids i li ∙ z));
}

-- One process is set to `p'`, which has the pid of the old one.
pub set_proc-SameTable :
    (i : ℕ) (k : Kernel) (p' : Proc)
    → p'.pid ≡ (k.proc i).pid
    → same_state p'.state unused ≡ same_state ((k.proc i).state) unused
    → SameTable k (set_proc i p' k)
set_proc-SameTable i k p' e u = record {
  pids = λ j lt. ground arith;
  frees = λ j lt. elim (Bool-cases (i == j)) [
    | inl here ↦
        let e' : i ≡ j = ground arith in
        rw here (u ∙ ap (λ t. same_state ((k.proc t).state) unused) e')
    | inr past ↦ rw past refl
  ];
  next = refl;
}

pub freeproc-PidInv : (i : ℕ) (k : Kernel) → PidInv k → PidInv (freeproc i k)
unfolding freeproc
freeproc-PidInv i k inv = record {
  positive = inv.positive;
  below = λ j lt. ground (arith, inv.below j lt, inv.positive);
  free = λ j lt. elim (Bool-cases (i == j)) [
    | inl here ↦ rw here refl
    | inr past ↦ rw past (inv.free j lt)
  ];
  unique = λ a b la lb e nz. ground (arith, inv.unique a b la lb);
}

pub kwait-PidInv :
    (addr : ℕ) (copied : Bool) (p : ℕ) (k : Kernel) → PidInv k → PidInv (kwait addr copied p k).1
kwait-PidInv addr copied p k inv =
    go (kwait addr copied p k).0 (kwait addr copied p k).1 (kwait-Meaning addr copied p k)
  where
    go : (r : Option (Option ℕ)) (k' : Kernel) → Meaning addr p copied k (r, k') → PidInv k'
    go (some (some pid)) k' (_, (i, _, _, e)) = subst PidInv (sym e) (freeproc-PidInv i k inv)
    go (some none) k' (e, _) = subst PidInv (sym e) inv
    go none k' m = subst PidInv (sym m.0) inv

-- kexit, which wants a process that is in use.
pub kexit-PidInv :
    (status p : ℕ) (k k' : Kernel)
    → p < nproc
    → same_state ((k.proc p).state) unused ≡ false
    → kexit status p k ≡ ok k'
    → PidInv k
    → PidInv k'
unfolding kexit
kexit-PidInv status p k k' h busy run inv = elim (Bool-cases (p == k.initproc)) [
  | inl is_init ↦ absurd (ground arith)
  | inr ne ↦
      let (k1, run1, e1) = kexit-Exited status p k h (ground arith) in
      let same : k1 ≡ k' = ground (arith, run1) in
      let e : Exited status p k k' = subst (λ t. Exited status p k t) same e1 in
      PidInv-same k k'
        (record {
          pids = e.pids;
          frees = λ j lt. elim (Bool-cases (j == p)) [
            | inl here ↦ ground (arith, e.dead)
            | inr other ↦ (e.others j lt (ground arith)).0
          ];
          next = e.next;
        })
        inv
]
