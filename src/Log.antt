-- ===== src/Log.antt =====
-- w3/kernel/log.c: the redo log of the file system. Code between acquire and release of log.lock is
-- one step, so the lock is left out. A loop `for (tail = 0; tail < n; tail++)` recurs on the rounds
-- left, beside `tail`.
pub mod Disk
pub mod Recoverable
pub mod Install
pub mod Commit
pub mod Crash
pub mod Space
pub mod Reserve
mod Tests
use os_t.Prelude.{
  ℕ, zero, suc, ◌+◌, ◌-◌, ◌*◌, Bool, true, false, Option, none, some, if◌then◌else◌, ltb, leb, ◌==◌,
}
use os_t.Prelude.Run.{Run, ok, panic, ◌>>=◌}
use Disk.{Block, Buffers, update, put, bwrite, bpin, bunpin}

abbrev pub max_op_blocks : ℕ
max_op_blocks = 10

abbrev pub log_blocks : ℕ
log_blocks = max_op_blocks * 3

abbrev pub bsize : ℕ
bsize = 1024

-- `struct logheader`
pub record LogHeader : Type 0 where
  pub n : ℕ
  pub block : ℕ → ℕ

-- `struct log`, less its lock, with the number of its wakeup calls.
pub record Log : Type 0 where
  pub start : ℕ
  pub outstanding : ℕ
  pub committing : Bool
  pub dev : ℕ
  pub lh : LogHeader
  pub wakeups : ℕ

pub record System : Type 0 where
  pub log : Log
  pub bufs : Buffers

-- The header's loops, in memory and in the words of its block.
pub read_blocks : ℕ → ℕ → Block → (ℕ → ℕ) → ℕ → ℕ
read_blocks zero i w f = f
read_blocks (suc k) i w f = read_blocks k (i + 1) w (update f i (w (i + 1)))

pub write_blocks : ℕ → ℕ → (ℕ → ℕ) → Block → Block
write_blocks zero i f w = w
write_blocks (suc k) i f w = write_blocks k (i + 1) f (update w (i + 1) (f i))

pub install_loop : ℕ → ℕ → Bool → Log → Buffers → Buffers
install_loop zero tail recovering l s = s
install_loop (suc k) tail recovering l s =
    let dst = l.lh.block tail in
    let copied = bwrite dst (put dst (s.cache (l.start + tail + 1)) s) in
    install_loop k (tail + 1) recovering l (if recovering then copied else bunpin dst copied)

pub install_trans : Bool → System → System
install_trans recovering s = record s { bufs = install_loop s.log.lh.n 0 recovering s.log s.bufs }

pub read_head : System → System
read_head s =
    let w = s.bufs.cache s.log.start in
    let lh' : LogHeader = record { n = w 0; block = read_blocks (w 0) 0 w s.log.lh.block } in
    record s { log = record (s.log) { lh = lh' } }

pub write_head : System → System
write_head s =
    let lh = s.log.lh in
    let b = s.log.start in
    let w = write_blocks lh.n 0 lh.block (update (s.bufs.cache b) 0 lh.n) in
    record s { bufs = bwrite b (put b w s.bufs) }

-- `log.lh.n = 0`
abbrev pub clear : System → System
clear s = record s { log = record (s.log) { lh = record (s.log.lh) { n = 0 } } }

pub recover_from_log : System → System
recover_from_log s = write_head (clear (install_trans true (read_head s)))

pub write_log_loop : ℕ → ℕ → Log → Buffers → Buffers
write_log_loop zero tail l s = s
write_log_loop (suc k) tail l s =
    let to = l.start + tail + 1 in
    write_log_loop k (tail + 1) l (bwrite to (put to (s.cache (l.lh.block tail)) s))

pub write_log : System → System
write_log s = record s { bufs = write_log_loop s.log.lh.n 0 s.log s.bufs }

pub commit : System → System
commit s =
    if ltb 0 s.log.lh.n
    then write_head (clear (install_trans false (write_head (write_log s))))
    else s

-- The log as the kernel starts: static storage, all zero.
abbrev pub no_log : Log
no_log = record {
  start = 0;
  outstanding = 0;
  committing = false;
  dev = 0;
  lh = record { n = 0; block = λ i. 0 };
  wakeups = 0;
}

-- `sizeof(struct logheader)` is 4 + 4 * LOGBLOCKS.
pub initlog : ℕ → ℕ → System → Run System
initlog dev logstart s =
    if leb bsize (4 + 4 * log_blocks)
    then panic
    else ok (recover_from_log (record s { log = record (s.log) { start = logstart; dev = dev } }))

-- One round of the loop of begin_op: `none` is a sleep on `&log`, after which the loop goes on.
pub begin_op : Log → Option Log
begin_op l =
    if l.committing
    then none
    else if ltb log_blocks (l.lh.n + (l.outstanding + 1) * max_op_blocks)
    then none
    else some (record l { outstanding = l.outstanding + 1 })

-- The first critical section of end_op, and whether to commit. An operation is outstanding, so the
-- counter does not go below zero.
pub end_op_enter : Log → Run (Bool × Log)
end_op_enter l =
    let left = l.outstanding - 1 in
    if l.committing
    then panic
    else if left == 0
    then ok (true, record l { outstanding = left; committing = true })
    else ok (false, record l { outstanding = left; wakeups = l.wakeups + 1 })

pub end_op_leave : Log → Log
end_op_leave l = record l { committing = false; wakeups = l.wakeups + 1 }

pub end_op_finish : Bool → System → System
end_op_finish false s = s
end_op_finish true s = let s' = commit s in record s' { log = end_op_leave s'.log }

pub end_op : System → Run System
end_op s = end_op_enter s.log >>= λ r. ok (end_op_finish r.0 (record s { log = r.1 }))

-- The loop of log_write: the first slot that holds `b`, or the end.
pub find_slot : ℕ → ℕ → (ℕ → ℕ) → ℕ → ℕ
find_slot zero i f b = i
find_slot (suc k) i f b = let rest = find_slot k (i + 1) f b in if f i == b then i else rest

pub log_write : ℕ → System → Run System
log_write b s =
    let l = s.log in
    let i = find_slot l.lh.n 0 l.lh.block b in
    let block' = update l.lh.block i b in
    if leb log_blocks l.lh.n
    then panic
    else if ltb l.outstanding 1
    then panic
    else if i == l.lh.n
    then ok (record {
      log = record l { lh = record { n = l.lh.n + 1; block = block' } };
      bufs = bpin b s.bufs;
    })
    else ok (record s { log = record l { lh = record { n = l.lh.n; block = block' } } })
