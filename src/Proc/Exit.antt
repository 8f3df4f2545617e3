-- ===== src/Proc/Exit.antt =====
-- reparent, kexit and kwait of w3/kernel/proc.c.
use os_t.Prelude.{
  ℕ, zero, suc, ◌+◌, Bool, false, ◌&&◌, ◌||◌, not, Option, none, some, List, [], ◌∷◌, if◌then◌else◌,
  ◌==◌,
}
use os_t.Prelude.Run.{Run, ok, panic}
use os_t.Proc.{
  nproc, zombie, same_state, Kernel, Chan, nowhere, proc_at, Call, fileclose, iput_in_op, set_proc,
  call_if, is_parent, freeproc,
}
use os_t.Proc.Sched.{wakeup}

-- The loop of reparent over the `n` processes from `i` on.
unfoldable pub reparent_loop : ℕ → ℕ → ℕ → Kernel → Kernel
reparent_loop zero i p k = k
reparent_loop (suc n) i p k = reparent_loop n (i + 1) p (
    if is_parent ((k.proc i).parent) p
    then wakeup (proc_at k.initproc) p
        (set_proc i (record (k.proc i) { parent = some k.initproc }) k)
    else k)

-- Called by `p` itself.
unfoldable pub reparent : ℕ → Kernel → Kernel
reparent p k = reparent_loop nproc 0 p k

abbrev pub parent_chan : Option ℕ → Chan
parent_chan none = nowhere
parent_chan (some i) = proc_at i

-- kexit's loop over the files: the calls of fileclose, and the entries that it leaves.
unfoldable pub close_calls : List ℕ → List Call → List Call
close_calls [] calls = calls
close_calls (f ∷ fs) calls = close_calls fs (call_if f (fileclose f) calls)

unfoldable pub close_files : List ℕ → List ℕ
close_files [] = []
close_files (f ∷ fs) = (if f == 0 then f else 0) ∷ close_files fs

-- kexit up to the lock of wait_lock: the files and the directory are given back.
unfoldable pub close_all : ℕ → Kernel → Kernel
close_all p k =
    record (set_proc p (record (k.proc p) { ofile = close_files ((k.proc p).ofile); cwd = 0 }) k) {
      calls = iput_in_op ((k.proc p).cwd) ∷ close_calls ((k.proc p).ofile) k.calls;
    }

-- The rest of kexit, up to its call of sched.
unfoldable pub become_zombie : ℕ → ℕ → Kernel → Kernel
become_zombie status p k =
    let k1 = reparent p k in
    let k2 = wakeup (parent_chan ((k1.proc p).parent)) p k1 in
    set_proc p (record (k2.proc p) { xstate = status; state = zombie }) k2

unfoldable pub kexit : ℕ → ℕ → Kernel → Run Kernel
kexit status p k = if p == k.initproc then panic else ok (become_zombie status p (close_all p k))

-- What one pass of kwait ends in: a child's pid, a failed copyout, no child, a child of which none
-- has exited.
pub data Waited : Type 0 where
  reaped : ℕ → Waited
  copy_failed : Waited
  childless : Waited
  waiting : Waited

-- The scan over the `n` processes from `i` on; `copied` is whether copyout succeeds.
unfoldable pub wait_scan : ℕ → ℕ → Bool → ℕ → Bool → ℕ → Kernel → Waited × Kernel
wait_scan zero i kids addr copied p k = (if kids then waiting else childless, k)
wait_scan (suc n) i kids addr copied p k =
    let pp = k.proc i in
    let mine = is_parent pp.parent p in
    let rest = wait_scan n (i + 1) (kids || mine) addr copied p k in
    if mine && same_state pp.state zombie
    then if not (addr == 0) && not copied then (copy_failed, k) else (reaped pp.pid, freeproc i k)
    else rest

-- One pass of kwait's loop: `none` is the sleep on `p`, after which it makes another; -1 is
-- `some none`.
unfoldable pub kwait : ℕ → Bool → ℕ → Kernel → Option (Option ℕ) × Kernel
kwait addr copied p k =
    let (w, k') = wait_scan nproc 0 false addr copied p k in
    elim w [
      | reaped pid ↦ (some (some pid), k')
      | copy_failed ↦ (some none, k')
      | childless ↦ (some none, k')
      | waiting ↦ (if (k'.proc p).killed then some none else none, k')
    ]
