-- ===== src/Proc.antt =====
-- The process table of w3/kernel/proc.c. A process is its index in `proc`; a null `struct proc *` is
-- `none`. Code between acquire and release of a p->lock is one step. What the functions ask of the
-- memory and the file system is a list of calls, and what those may refuse is an argument.
pub mod Sched
pub mod Exit
pub mod Pids
pub mod Forks
pub mod Family
pub mod Death
pub mod Wait
pub mod Table
mod Tests
use os_t.Prelude.{
  ℕ, zero, suc, ◌+◌, ◌-◌, Bool, true, false, ◌&&◌, ◌||◌, not, Option, none, some, List, [], ◌∷◌,
  ◌++◌, if◌then◌else◌, ltb, ◌==◌,
}

-- NPROC
abbrev pub nproc : ℕ
nproc = 64

-- NOFILE
abbrev pub nofile : ℕ
nofile = 16

-- `enum procstate`
pub data ProcState : Type 0 where
  unused used sleeping runnable running zombie : ProcState

abbrev pub same_state : ProcState → ProcState → Bool
same_state unused unused = true
same_state used used = true
same_state sleeping sleeping = true
same_state runnable runnable = true
same_state running running = true
same_state zombie zombie = true
same_state _ _ = false

-- What a process sleeps on: nothing, a process, or another address of the kernel.
pub data Chan : Type 0 where
  nowhere : Chan
  proc_at : ℕ → Chan
  other : ℕ → Chan

-- `struct proc`, less its lock, kernel stack and saved registers; `ofile` is the list of
-- its NOFILE entries, and a null pointer is 0.
pub record Proc : Type 0 where
  pub state : ProcState
  pub chan : Chan
  pub killed : Bool
  pub xstate : ℕ
  pub pid : ℕ
  pub parent : Option ℕ
  pub sz : ℕ
  pub pagetable : ℕ
  pub trapframe : ℕ
  pub ofile : List ℕ
  pub cwd : ℕ
  pub name : List ℕ
  pub monitor_mask : ℕ

-- What the functions call in other parts of the kernel.
pub data Call : Type 0 where
  kfree : ℕ → Call
  proc_freepagetable : ℕ → ℕ → Call
  filedup : ℕ → Call
  idup : ℕ → Call
  fileclose : ℕ → Call
  iput_in_op : ℕ → Call

pub record Kernel : Type 0 where
  pub proc : ℕ → Proc
  pub nextpid : ℕ
  pub initproc : ℕ
  pub calls : List Call

abbrev pub update : (ℕ → Proc) → ℕ → Proc → ℕ → Proc
update f i p j = if i == j then p else f j

abbrev pub set_proc : ℕ → Proc → Kernel → Kernel
set_proc i p k = record k { proc = update k.proc i p }

abbrev pub is_parent : Option ℕ → ℕ → Bool
is_parent none i = false
is_parent (some j) i = j == i

-- `for(p = proc; p < &proc[NPROC]; p++)`: the first index from `i` on, of the `n` left, that passes.
pub scan : ℕ → ℕ → (ℕ → Bool) → Option ℕ
scan zero i test = none
scan (suc n) i test = let rest = scan n (i + 1) test in if test i then some i else rest

pub allocpid : Kernel → ℕ × Kernel
allocpid k = (k.nextpid, record k { nextpid = k.nextpid + 1 })

-- `if(ptr) call;` on the list of calls.
abbrev pub call_if : ℕ → Call → List Call → List Call
call_if ptr c calls = if ptr == 0 then calls else c ∷ calls

pub freeproc : ℕ → Kernel → Kernel
freeproc i k =
    let p = k.proc i in
    record (set_proc i
      (record p {
        state = unused;
        chan = nowhere;
        killed = false;
        xstate = 0;
        pid = 0;
        parent = none;
        sz = 0;
        pagetable = 0;
        trapframe = 0;
        name = [];
      })
      k) {
        calls =
            call_if p.pagetable (proc_freepagetable p.pagetable p.sz)
              (call_if p.trapframe (kfree p.trapframe) k.calls);
      }

-- The part of allocproc behind `found`; `frame` and `table` are what kalloc and proc_pagetable
-- return, 0 for a failure.
pub allocproc_at : ℕ → ℕ → ℕ → Kernel → Option ℕ × Kernel
allocproc_at frame table i k =
    let (pid, k1) = allocpid k in
    let k2 = set_proc i (record (k1.proc i) { pid = pid; state = used; trapframe = frame }) k1 in
    let k3 = set_proc i (record (k2.proc i) { pagetable = table }) k2 in
    if frame == 0
    then (none, freeproc i k2)
    else if table == 0
    then (none, freeproc i k3)
    else (some i, k3)

pub allocproc : ℕ → ℕ → Kernel → Option ℕ × Kernel
allocproc frame table k = elim (scan nproc 0 (λ i. same_state ((k.proc i).state) unused)) [
  | none ↦ (none, k)
  | some i ↦ allocproc_at frame table i k
]

-- kfork's loop over the files: the calls of filedup, and the entries of the child, which had `gs`.
dup_calls : List ℕ → List Call → List Call
dup_calls [] calls = calls
dup_calls (f ∷ fs) calls = dup_calls fs (call_if f (filedup f) calls)

pub dup_files : List ℕ → List ℕ → List ℕ
dup_files [] gs = gs
dup_files (f ∷ fs) [] = []
dup_files (f ∷ fs) (g ∷ gs) = (if f == 0 then g else f) ∷ dup_files fs gs

-- The part of kfork behind allocproc; `copied` is whether uvmcopy succeeds. -1 is `none`.
pub kfork_at : Bool → ℕ → ℕ → Kernel → Option ℕ × Kernel
kfork_at copied p np k =
    let pp = k.proc p in
    let child = record (k.proc np) {
      state = runnable;
      sz = pp.sz;
      ofile = dup_files pp.ofile ((k.proc np).ofile);
      cwd = pp.cwd;
      name = pp.name;
      monitor_mask = pp.monitor_mask;
      parent = some p;
    } in
    if copied
    then (
      some ((k.proc np).pid),
      record (set_proc np child k) { calls = idup (pp.cwd) ∷ dup_calls pp.ofile k.calls },
    )
    else (none, freeproc np k)

pub kfork : ℕ → ℕ → Bool → ℕ → Kernel → Option ℕ × Kernel
kfork frame table copied p k =
    let (found, k1) = allocproc frame table k in
    elim found [ none ↦ (none, k1) | some np ↦ kfork_at copied p np k1 ]
