-- ===== src/Log/Crash.antt =====
-- recover_from_log of w3/kernel/log.c, and crashes during commit and during any number of
-- recoveries.
use os_t.Prelude.{ℕ, ◌+◌, ◌<◌, ◌≡◌, refl, sym, ◌∙◌, ◌⊎◌, inl, inr, true, List, [], ◌∷◌, arith}
use os_t.Prelude.Run.{ok}
use os_t.Log.{
  log_blocks, Log, System, no_log, read_blocks, write_blocks, install_loop, write_head,
  install_trans, read_head, recover_from_log, initlog, commit,
}
use os_t.Log.Disk.{Blocks, update, boot}
use os_t.Log.Recoverable.{Recoverable, Holds, Recoverable-Holds, read_blocks_lem}
use os_t.Log.Install.{Logged, Installing, install_loop-Installing, erase-Recoverable}
use os_t.Log.Commit.{committed, Ready, commit-Recoverable}

-- Recovery keeps a recoverable disk recoverable to the same contents, wherever it stops, and ends
-- with an empty log if it has power for LOGBLOCKS + 1 writes.
recover-Recoverable :
    (l : Log) (new d : Blocks) (p : ℕ)
    → Recoverable l.start new d
    → let d' = (recover_from_log (record { log = l; bufs = boot d p })).bufs.disk in
      Recoverable l.start new d' × (log_blocks < p → d' l.start 0 ≡ 0)
unfolding recover_from_log write_head install_trans read_head write_blocks
recover-Recoverable l new d p r =
    let inv =
      install_loop-Installing l' new (d l.start) n 0 p true (boot d p) logged (omega arith) fresh in
    let (rec, z) =
      erase-Recoverable l' new (d l.start) p (install_loop n 0 true l' (boot d p))
        (update ((install_loop n 0 true l' (boot d p)).cache l.start) 0 0) logged inv
        (ground arith) in
    (rec, λ lt. z (omega (arith, r.few)))
  where
    n : ℕ
    n = d l.start 0

    l' : Log
    l' = record l { lh = record { n = n; block = read_blocks n 0 (d l.start) l.lh.block } }

    entry : (i : ℕ) → i < n → l'.lh.block i ≡ d l.start (i + 1)
    entry i lt = ground (arith, read_blocks_lem n 0 (d l.start) l.lh.block i)

    logged : Logged l' new (d l.start)
    logged = record {
      few = r.few;
      count = refl;
      entries = λ i lt. sym (entry i lt);
      homes = λ i lt. rw (entry i lt) (r.homes i lt);
    }

    fresh : Installing l' new (d l.start) p 0 (boot d p)
    fresh = record {
      head = refl;
      cached = λ i lt. rw (entry i lt) (r.slots i lt);
      slots = λ i lt. rw (entry i lt) (r.slots i lt);
      others = λ b home free. r.others b home (λ i lt e. free i lt (entry i lt ∙ e));
      done = λ _ i lt. absurd (omega arith);
      left = omega arith;
    }

-- A reboot with power for `p` writes: initlog runs on what the disk holds.
unfoldable pub reboot : ℕ → ℕ → Blocks → Blocks
reboot logstart p d = elim (initlog 1 logstart (record { log = no_log; bufs = boot d p })) [
  | ok s ↦ s.bufs.disk
  | _ ↦ d
]

-- Reboots, one after the other, each with its own power.
pub reboots : ℕ → List ℕ → Blocks → Blocks
reboots logstart [] d = d
reboots logstart (p ∷ ps) d = reboots logstart ps (reboot logstart p d)

reboot-Recoverable :
    (logstart p : ℕ) (new d : Blocks)
    → Recoverable logstart new d
    → Recoverable logstart new (reboot logstart p d)
      × (log_blocks < p → reboot logstart p d logstart 0 ≡ 0)
unfolding reboot initlog
reboot-Recoverable logstart p new d r =
    recover-Recoverable (record no_log { start = logstart; dev = 1 }) new d p r

reboots-Recoverable :
    (logstart : ℕ) (ps : List ℕ) (new d : Blocks)
    → Recoverable logstart new d
    → Recoverable logstart new (reboots logstart ps d)
unfolding reboots
reboots-Recoverable logstart [] new d r = r
reboots-Recoverable logstart (p ∷ ps) new d r =
    reboots-Recoverable logstart ps new (reboot logstart p d)
      (reboot-Recoverable logstart p new d r).0

-- A last reboot with enough power brings back the contents.
recovered :
    (logstart : ℕ) (ps : List ℕ) (q : ℕ) (new d : Blocks)
    → Recoverable logstart new d
    → log_blocks < q
    → Holds logstart new (reboot logstart q (reboots logstart ps d))
recovered logstart ps q new d r lt =
    let d1 = reboots logstart ps d in
    let (r', z) = reboot-Recoverable logstart q new d1 (reboots-Recoverable logstart ps new d r) in
    Recoverable-Holds logstart new (reboot logstart q d1) r' (z lt)

-- A transaction is atomic: let the machine stop after any number of writes of commit, and then
-- after any numbers of writes in any number of recoveries. Once a recovery has power for
-- LOGBLOCKS + 1 writes, all data blocks hold the contents before the transaction, or all hold
-- those after it.
pub commit_atomic :
    (s : System) (ps : List ℕ) (q : ℕ)
    → Ready s
    → log_blocks < q
    → let start = s.log.start in
      let d = reboot start q (reboots start ps (commit s).bufs.disk) in
      Holds start s.bufs.disk d ⊎ Holds start (committed s.log.lh s.bufs.cache s.bufs.disk) d
commit_atomic s ps q r lt = go (commit-Recoverable s r).0
  where
    go :
        Recoverable s.log.start s.bufs.disk (commit s).bufs.disk
          ⊎ Recoverable s.log.start
              (committed s.log.lh s.bufs.cache s.bufs.disk)
              (commit s).bufs.disk
        → Holds s.log.start s.bufs.disk
            (reboot s.log.start q (reboots s.log.start ps (commit s).bufs.disk))
          ⊎ Holds s.log.start
              (committed s.log.lh s.bufs.cache s.bufs.disk)
              (reboot s.log.start q (reboots s.log.start ps (commit s).bufs.disk))
    go (inl before) = inl (recovered s.log.start ps q s.bufs.disk (commit s).bufs.disk before lt)
    go (inr after) = inr (
        recovered s.log.start ps q (committed s.log.lh s.bufs.cache s.bufs.disk)
          (commit s).bufs.disk after lt)
