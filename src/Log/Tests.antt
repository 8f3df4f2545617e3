-- ===== src/Log/Tests.antt =====
-- The log at one transaction that writes block 40; the log starts at block 2.
use os_t.Prelude.{ℕ, ◌≡◌, refl, ◌⊎◌, inr, true, none, [], ◌∷◌, arith, length}
use os_t.Prelude.Run.{ok}
use os_t.Log.{
  Log, System, no_log, recover_from_log, commit, begin_op, end_op_enter, log_write, read_blocks,
  write_blocks, install_loop, write_log_loop, write_head, install_trans, read_head, write_log,
  initlog,
}
use os_t.Log.Disk.{Blocks, boot, update}
use os_t.Log.Recoverable.{Holds}
use os_t.Log.Commit.{committed, Ready}
use os_t.Log.Crash.{reboot, reboots, commit_atomic}
use os_t.Log.Space.{Recorded}
use os_t.Log.Reserve.{enter, leave, Reach, start, next, Idle, log_write_safe, committing_alone}

abbrev blank : Blocks
blank b i = 0

-- The kernel after initlog, with the new contents of block 40 in the cache.
abbrev idle_log : Log
idle_log = record no_log { start = 2; dev = 1 }

abbrev one_block : Log
one_block = record idle_log { lh = record { n = 1; block = λ i. 40 } }

abbrev written : ℕ → System
written p = record {
  log = one_block;
  bufs = record (boot blank p) { cache = update blank 40 (λ i. 9) };
}

-- The machine stops after the header is written; recovery installs the block.
crash_after_header : reboot 2 31 (commit (written 2)).bufs.disk 40 5 ≡ 9
unfolding reboot initlog recover_from_log commit read_head write_head install_trans write_log
    install_loop write_log_loop read_blocks write_blocks
crash_after_header = refl

-- It stops before: the old contents are there.
crash_before_header : reboot 2 31 (commit (written 1)).bufs.disk 40 5 ≡ 0
unfolding reboot initlog recover_from_log commit read_head write_head install_trans write_log
    install_loop write_log_loop read_blocks write_blocks
crash_before_header = refl

written-Ready : (p : ℕ) → Ready (written p)
written-Ready p = record { few = omega arith; homes = λ i lt. inr (omega arith); clean = refl }

commit_atomic_example :
    let d = reboot 2 31 (reboots 2 (0 ∷ 1 ∷ []) (commit (written 2)).bufs.disk) in
    Holds 2 blank d ⊎ Holds 2 (committed one_block.lh (written 2).bufs.cache blank) d
commit_atomic_example = commit_atomic (written 2) (0 ∷ 1 ∷ []) 31 (written-Ready 2) (omega arith)

abbrev idle : System
idle = record { log = idle_log; bufs = boot blank 100 }

abbrev entered : System
entered = record idle { log = record idle_log { outstanding = 1 } }

idle-Idle : Idle idle
idle-Idle = record { nobody = refl; nothing = refl; quiet = refl }

enter_one : Reach (record { sys = idle; used = [] }) (record { sys = entered; used = 0 ∷ [] })
unfolding begin_op
enter_one = next start (enter idle [] (record idle_log { outstanding = 1 }) refl)

log_write_safe_example : (s' : System) × (log_write 40 entered ≡ ok s') × Recorded 40 entered s'
log_write_safe_example = log_write_safe [] [] 0 40 idle-Idle enter_one (omega arith)

abbrev committing_log : Log
committing_log = record idle_log { committing = true }

leave_one :
    Reach
      (record { sys = idle; used = [] })
      (record { sys = record idle { log = committing_log }; used = [] })
unfolding end_op_enter
leave_one = next enter_one (leave entered [] [] 0 true committing_log refl)

committing_alone_example : (length {A = ℕ} [] ≡ 0) × (begin_op committing_log ≡ none)
committing_alone_example = committing_alone [] idle-Idle leave_one refl
