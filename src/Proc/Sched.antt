-- ===== src/Proc/Sched.antt =====
-- Sleeping, waking, killing and scheduling in w3/kernel/proc.c. A function that calls sched ends
-- where the scheduler goes on.
use os_t.Prelude.{ℕ, zero, suc, ◌+◌, Bool, true, false, ◌&&◌, none, some, if◌then◌else◌, ◌==◌}
use os_t.Proc.{
  nproc, sleeping, runnable, running, same_state, Proc, Kernel, Chan, nowhere, proc_at, other,
  update, set_proc, scan,
}

abbrev pub same_chan : Chan → Chan → Bool
same_chan nowhere nowhere = true
same_chan (proc_at i) (proc_at j) = i == j
same_chan (other a) (other b) = a == b
same_chan _ _ = false

-- One round of wakeup's loop.
unfoldable pub wake : Chan → Proc → Proc
wake c p =
    if same_state p.state sleeping && same_chan p.chan c then record p { state = runnable } else p

-- The loop over the `n` processes from `i` on, all but the caller `me`.
unfoldable pub wake_loop : ℕ → ℕ → Chan → ℕ → (ℕ → Proc) → ℕ → Proc
wake_loop zero i c me f = f
wake_loop (suc n) i c me f =
    wake_loop n (i + 1) c me (if i == me then f else update f i (wake c (f i)))

unfoldable pub wakeup : Chan → ℕ → Kernel → Kernel
wakeup c me k = record k { proc = wake_loop nproc 0 c me k.proc }

-- sleep up to its call of sched; the condition lock is the caller's.
unfoldable pub sleep : Chan → ℕ → Kernel → Kernel
sleep c me k = set_proc me (record (k.proc me) { chan = c; state = sleeping }) k

-- sleep after its call of sched
unfoldable pub sleep_done : ℕ → Kernel → Kernel
sleep_done me k = set_proc me (record (k.proc me) { chan = nowhere }) k

unfoldable pub yield : ℕ → Kernel → Kernel
yield me k = set_proc me (record (k.proc me) { state = runnable }) k

-- The scheduler's visit of one process: whether it switches to it.
unfoldable pub visit : ℕ → Kernel → Bool × Kernel
visit i k =
    if same_state ((k.proc i).state) runnable
    then (true, set_proc i (record (k.proc i) { state = running }) k)
    else (false, k)

-- What kkill does to the process that it finds.
unfoldable pub mark_killed : Proc → Proc
mark_killed p = record p {
  killed = true;
  state = if same_state p.state sleeping then runnable else p.state;
}

-- 0 is `true`, -1 is `false`.
unfoldable pub kkill : ℕ → Kernel → Bool × Kernel
kkill pid k = elim (scan nproc 0 (λ i. (k.proc i).pid == pid)) [
  | none ↦ (false, k)
  | some i ↦ (true, set_proc i (mark_killed (k.proc i)) k)
]

unfoldable pub setkilled : ℕ → Kernel → Kernel
setkilled i k = set_proc i (record (k.proc i) { killed = true }) k
