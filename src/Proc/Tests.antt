-- ===== src/Proc/Tests.antt =====
-- The process table after the first fork, and its theorems there.
use os_t.Prelude.{if◌then◌else◌, ◌≡◌, refl, true, some, arith, if◌then◌else◌, ◌==◌}
use os_t.Prelude.Run.{ok}
use os_t.Proc.{
  sleeping, running, zombie, Kernel, other, scan, allocpid, allocproc_at, allocproc, kfork_at,
  kfork,
}
use os_t.Proc.Exit.{kexit, kwait, wait_scan}
use os_t.Proc.Death.{Exited, kexit-Exited}
use os_t.Proc.Wait.{Meaning, kwait-Meaning}
use os_t.Proc.Pids.{PidInv}
use os_t.Proc.Table.{empty_slot, procinit, fork, Reach, start, next, Reach-PidInv}

abbrev forked : Kernel
forked = (kfork 4096 8192 true 0 procinit).1

fork_pid : (kfork 4096 8192 true 0 procinit).0 ≡ some 1
unfolding kfork kfork_at allocproc allocproc_at allocpid scan
fork_pid = refl

forked_pid : (forked.proc 0).pid ≡ 1
unfolding kfork kfork_at allocproc allocproc_at allocpid scan
forked_pid = refl

-- Processes 3 and 4: a sleeper whose parent is 5, and a zombie with the same parent.
abbrev table : Kernel
table = record procinit {
  proc = λ i.
      if i == 3
      then record empty_slot { state = sleeping; chan = other 7; pid = 11; parent = some 5 }
      else if i == 4
      then record empty_slot { state = zombie; pid = 12; parent = some 5 }
      else if i == 5
      then record empty_slot { state = running; pid = 13; parent = some 0 }
      else empty_slot;
}

wait_reaps : (kwait 0 true 5 table).0 ≡ some (some 12)
unfolding kwait wait_scan
wait_reaps = refl

kexit-Exited_example : (k' : Kernel) × (kexit 9 5 table ≡ ok k') × Exited 9 5 table k'
kexit-Exited_example = kexit-Exited 9 5 table (omega arith) (λ e. omega arith)

-- The status goes to address 4096.
kwait-Meaning_example : Meaning 4096 5 true table (kwait 4096 true 5 table)
kwait-Meaning_example = kwait-Meaning 4096 true 5 table

forked-Reach : Reach procinit forked
forked-Reach = next start (fork procinit 4096 8192 true 0)

Reach-PidInv_example : PidInv forked
Reach-PidInv_example = Reach-PidInv forked-Reach
