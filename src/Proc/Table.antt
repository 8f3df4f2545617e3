-- ===== src/Proc/Table.antt =====
-- The process table of w3/kernel/proc.c under any sequence of calls.
use os_t.Prelude.{
  ℕ, zero, suc, ◌<◌, ◌≡◌, refl, sym, ap, ◌∙◌, ◌≢◌, inl, inr, Bool, true, false, Option, none, some,
  arith, if◌then◌else◌, ◌==◌, Bool-cases, List, [], ◌∷◌,
}
use os_t.Prelude.Run.{ok}
use os_t.Proc.{
  nproc, nofile, ProcState, unused, sleeping, runnable, running, same_state, Proc, Kernel, Chan,
  nowhere, set_proc, scan, kfork,
}
use os_t.Proc.Sched.{wakeup, sleep, sleep_done, yield, visit, kkill, mark_killed, setkilled}
use os_t.Proc.Exit.{kexit, kwait}
use os_t.Proc.Family.{wakeup_lem, wakeup-SameIds}
use os_t.Proc.Forks.{kfork-PidInv}
use os_t.Proc.Pids.{
  PidInv, SameTable, PidInv-same, set_proc-SameTable, scan-some, scan-finds, kwait-PidInv,
  kexit-PidInv,
}

-- `ofile` of a slot that was never used: its n entries are null.
abbrev pub no_files : ℕ → List ℕ
no_files zero = []
no_files (suc n) = 0 ∷ no_files n

-- A process slot after boot, and the table after procinit.
abbrev pub empty_slot : Proc
empty_slot = record {
  state = unused;
  chan = nowhere;
  killed = false;
  xstate = 0;
  pid = 0;
  parent = none;
  sz = 0;
  pagetable = 0;
  trapframe = 0;
  ofile = no_files nofile;
  cwd = 0;
  name = [];
  monitor_mask = 0;
}

abbrev pub procinit : Kernel
procinit = record { proc = λ i. empty_slot; nextpid = 1; initproc = 0; calls = [] }

-- Any call that changes the table, by a process `p` that runs where the code has one.
pub data Step : Kernel → Kernel → Type 0 where
  fork :
      (k : Kernel) (frame table : ℕ) (copied : Bool) (p : ℕ)
      → Step k (kfork frame table copied p k).1
  exit :
      (k k' : Kernel) (status p : ℕ)
      → p < nproc
      → (k.proc p).state ≡ running
      → kexit status p k ≡ ok k'
      → Step k k'
  wait : (k : Kernel) (addr : ℕ) (copied : Bool) (p : ℕ) → Step k (kwait addr copied p k).1
  wake : (k : Kernel) (c : Chan) (p : ℕ) → Step k (wakeup c p k)
  fall_asleep : (k : Kernel) (c : Chan) (p : ℕ) → (k.proc p).state ≡ running → Step k (sleep c p k)
  woken : (k : Kernel) (p : ℕ) → Step k (sleep_done p k)
  give_up : (k : Kernel) (p : ℕ) → (k.proc p).state ≡ running → Step k (yield p k)
  schedule : (k : Kernel) (i : ℕ) → Step k (visit i k).1
  kill : (k : Kernel) (pid : ℕ) → Step k (kkill pid k).1
  mark : (k : Kernel) (p : ℕ) → Step k (setkilled p k)

pub data Reach (s : Kernel) : Kernel → Type 0 where
  start : Reach s s
  next : {t u : Kernel} → Reach s t → Step t u → Reach s u

procinit-PidInv : PidInv procinit
procinit-PidInv = record {
  positive = omega arith;
  below = λ i lt. omega arith;
  free = λ i lt. refl;
  unique = λ i j li lj e nz. absurd (nz refl);
}

busy : (p : Proc) → p.state ≡ running → same_state p.state unused ≡ false
busy p e = ap (λ t. same_state t unused) e

visit-SameTable : (i : ℕ) (k : Kernel) → SameTable k (visit i k).1
unfolding visit
visit-SameTable i k = elim (Bool-cases (same_state ((k.proc i).state) runnable)) [
  | inl r ↦ rw r (
      set_proc-SameTable i k (record (k.proc i) { state = running }) refl (idle (k.proc i).state r))
  | inr n ↦ rw n (record { pids = λ j lt. refl; frees = λ j lt. refl; next = refl })
]
  where
    idle : (s : ProcState) → same_state s runnable ≡ true → false ≡ same_state s unused
    idle s e = ground arith

mark_killed-busy : (p : Proc) → same_state (mark_killed p).state unused ≡ same_state p.state unused
unfolding mark_killed
mark_killed-busy p = ground arith

pid-mark_killed : (p : Proc) → (mark_killed p).pid ≡ p.pid
unfolding mark_killed
pid-mark_killed p = refl

kkill-SameTable : (pid : ℕ) (k : Kernel) → SameTable k (kkill pid k).1
unfolding kkill
kkill-SameTable pid k = go (scan nproc 0 (λ i. (k.proc i).pid == pid))
  where
    go :
        (found : Option ℕ)
        → SameTable k
            (elim found as (λ _. Bool × Kernel) [
              | none ↦ (false, k)
              | some i ↦ (true, set_proc i (mark_killed (k.proc i)) k)
            ]).1
    go none = record { pids = λ j lt. refl; frees = λ j lt. refl; next = refl }
    go (some i) =
        set_proc-SameTable i k (mark_killed (k.proc i)) (pid-mark_killed (k.proc i))
          (mark_killed-busy (k.proc i))

Step-PidInv : {k k' : Kernel} → Step k k' → PidInv k → PidInv k'
unfolding sleep sleep_done yield setkilled
Step-PidInv (fork k frame table copied p) inv = kfork-PidInv frame table copied p k inv
Step-PidInv (exit k k' status p lt r run) inv =
    kexit-PidInv status p k k' lt (busy (k.proc p) r) run inv
Step-PidInv (wait k addr copied p) inv = kwait-PidInv addr copied p k inv
Step-PidInv (wake k c p) inv =
    PidInv-same k (wakeup c p k)
      (record {
        pids = λ j lt. (wakeup-SameIds c p k j lt).0.same_pid;
        frees = λ j lt. (wakeup-SameIds c p k j lt).0.same_unused;
        next = (wakeup_lem c p k 0 (omega arith)).1;
      })
      inv
Step-PidInv (fall_asleep k c p r) inv =
    PidInv-same k (sleep c p k)
      (set_proc-SameTable p k (record (k.proc p) { chan = c; state = sleeping }) refl
        (sym (busy (k.proc p) r)))
      inv
Step-PidInv (woken k p) inv =
    PidInv-same k (sleep_done p k)
      (set_proc-SameTable p k (record (k.proc p) { chan = nowhere }) refl refl) inv
Step-PidInv (give_up k p r) inv =
    PidInv-same k (yield p k)
      (set_proc-SameTable p k (record (k.proc p) { state = runnable }) refl
        (sym (busy (k.proc p) r)))
      inv
Step-PidInv (schedule k i) inv = PidInv-same k (visit i k).1 (visit-SameTable i k) inv
Step-PidInv (kill k pid) inv = PidInv-same k (kkill pid k).1 (kkill-SameTable pid k) inv
Step-PidInv (mark k p) inv =
    PidInv-same k (setkilled p k)
      (set_proc-SameTable p k (record (k.proc p) { killed = true }) refl refl) inv

-- Whatever calls are made after boot, no two processes have the same pid, every pid in use is below
-- nextpid, and the slots with pid 0 are exactly the free ones.
pub Reach-PidInv : {k : Kernel} → Reach procinit k → PidInv k
Reach-PidInv start = procinit-PidInv
Reach-PidInv (next r st) = Step-PidInv st (Reach-PidInv r)

kkill-found :
    (pid i : ℕ) (k : Kernel)
    → scan nproc 0 (λ j. (k.proc j).pid == pid) ≡ some i
    → kkill pid k ≡ (true, set_proc i (mark_killed (k.proc i)) k)
unfolding kkill
kkill-found pid i k e =
    ap
      (λ (o : Option ℕ). elim o as (λ _. Bool × Kernel) [
        | none ↦ (false, k)
        | some j ↦ (true, set_proc j (mark_killed (k.proc j)) k)
      ])
      e

-- kkill by the pid of a process finds that process: it is marked as killed, and woken if it sleeps;
-- every other process stays as it was.
pub kkill_lem :
    {k : Kernel} (i : ℕ)
    → Reach procinit k
    → i < nproc
    → (k.proc i).pid ≢ 0
    → let (found, k') = kkill ((k.proc i).pid) k in
      (found ≡ true)
      × ((k'.proc i).killed ≡ true)
      × ((k'.proc i).pid ≡ (k.proc i).pid)
      × ((k'.proc i).state
          ≡ (if same_state ((k.proc i).state) sleeping then runnable else (k.proc i).state))
      × ((j : ℕ) → j ≢ i → k'.proc j ≡ k.proc j)
unfolding mark_killed
kkill_lem {k} i r lt nz =
    let inv = Reach-PidInv r in
    let test = λ (j : ℕ). (k.proc j).pid == (k.proc i).pid in
    let (j, e) = scan-finds nproc 0 i test (omega arith) lt (ground arith) in
    let (_, jlt, hit) = scan-some nproc 0 test j e in
    let same : j ≡ i = sym (inv.unique i j lt jlt (ground arith) nz) in
    let e' : scan nproc 0 (λ j'. (k.proc j').pid == (k.proc i).pid) ≡ some i = e ∙ ap some same in
    let run : kkill ((k.proc i).pid) k ≡ (true, set_proc i (mark_killed (k.proc i)) k) =
      kkill-found ((k.proc i).pid) i k e' in
    rw run (refl, ground arith, ground arith, ground arith, λ j' ne. ground arith)
