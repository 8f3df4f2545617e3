-- ===== src/Proc/Death.antt =====
-- kexit and kwait of w3/kernel/proc.c: what becomes of a process that exits, and of its children.
use os_t.Prelude.{
  ℕ, ◌<◌, ◌≡◌, refl, sym, ap, ◌∙◌, ◌≢◌, inl, inr, some, arith, if◌then◌else◌, ◌==◌, Bool-cases,
}
use os_t.Prelude.Run.{ok}
use os_t.Proc.{nproc, unused, zombie, same_state, Kernel, set_proc, is_parent}
use os_t.Proc.Sched.{wakeup}
use os_t.Proc.Exit.{reparent, parent_chan, close_all, become_zombie, kexit}
use os_t.Proc.Family.{SameIds, wakeup_lem, wakeup-SameIds, reparent_lem}

-- What kexit leaves behind.
pub record Exited (status p : ℕ) (k k' : Kernel) : Type 0 where
  pub dead : (k'.proc p).state ≡ zombie
  pub told : (k'.proc p).xstate ≡ status
  pub adopted :
      (j : ℕ)
      → j < nproc
      → (k'.proc j).parent
        ≡ (if is_parent ((k.proc j).parent) p then some k.initproc else (k.proc j).parent)
  pub pids : (j : ℕ) → j < nproc → (k'.proc j).pid ≡ (k.proc j).pid
  pub others :
      (j : ℕ)
      → j < nproc
      → j ≢ p
      → (same_state ((k'.proc j).state) unused ≡ same_state ((k.proc j).state) unused)
        × (same_state ((k'.proc j).state) zombie ≡ same_state ((k.proc j).state) zombie)
  pub next : k'.nextpid ≡ k.nextpid

module _ (status p : ℕ) (k : Kernel) (j : ℕ) (lt : j < nproc) where
  abbrev told_parent : Kernel
  told_parent = wakeup (parent_chan (((reparent p k).proc p).parent)) p (reparent p k)

  told-ids :
      SameIds (k.proc j) (told_parent.proc j)
      × ((told_parent.proc j).parent
          ≡ (if is_parent ((k.proc j).parent) p then some k.initproc else (k.proc j).parent))
      × (told_parent.nextpid ≡ k.nextpid)
  told-ids =
      let c = parent_chan (((reparent p k).proc p).parent) in
      let (par, ids, nx) = reparent_lem p k j lt in
      let (ids', par') = wakeup-SameIds c p (reparent p k) j lt in
      let (_, nx', _) = wakeup_lem c p (reparent p k) j lt in
      (
        record {
          same_pid = ids'.same_pid ∙ ids.same_pid;
          same_unused = ids'.same_unused ∙ ids.same_unused;
          same_zombie = ids'.same_zombie ∙ ids.same_zombie;
        },
        par' ∙ par,
        nx' ∙ nx,
      )

  abbrev dying : Kernel
  dying = set_proc p (record (told_parent.proc p) { xstate = status; state = zombie }) told_parent

  dying-same :
      ((dying.proc j).parent ≡ (told_parent.proc j).parent)
      × ((dying.proc j).pid ≡ (told_parent.proc j).pid)
      × (j ≢ p → dying.proc j ≡ told_parent.proc j)
  dying-same = elim (Bool-cases (p == j)) [
    | inl e ↦
        let e' : p ≡ j = ground arith in
        (
          rw e (ap (λ t. (told_parent.proc t).parent) e'),
          rw e (ap (λ t. (told_parent.proc t).pid) e'),
          λ ne. absurd (ne (sym e')),
        )
    | inr e ↦ (rw e refl, rw e refl, λ ne. rw e refl)
  ]

  zombie-Exited :
      (((become_zombie status p k).proc j).parent
        ≡ (if is_parent ((k.proc j).parent) p then some k.initproc else (k.proc j).parent))
      × (((become_zombie status p k).proc j).pid ≡ (k.proc j).pid)
      × (j ≢ p
          → (same_state (((become_zombie status p k).proc j).state) unused
              ≡ same_state ((k.proc j).state) unused)
            × (same_state (((become_zombie status p k).proc j).state) zombie
                ≡ same_state ((k.proc j).state) zombie))
      × ((become_zombie status p k).nextpid ≡ k.nextpid)
  unfolding become_zombie
  zombie-Exited =
      let (ids, par, nx) = told-ids in
      let (par', pid', same) = dying-same in
      (
        par' ∙ par,
        pid' ∙ ids.same_pid,
        λ ne. (
          ap (λ q. same_state (q.state) unused) (same ne) ∙ ids.same_unused,
          ap (λ q. same_state (q.state) zombie) (same ne) ∙ ids.same_zombie,
        ),
        nx,
      )

  -- Giving the files back touches nobody's identity.
  close_all-same :
      (((close_all p k).proc j).parent ≡ (k.proc j).parent)
      × (((close_all p k).proc j).pid ≡ (k.proc j).pid)
      × (((close_all p k).proc j).state ≡ (k.proc j).state)
  unfolding close_all
  close_all-same = (ground arith, ground arith, ground arith)

-- kexit of a process that is not init makes it a zombie with its status, gives its children to
-- init, leaves every other parent, pid and exit alone, and does not panic.
pub kexit-Exited :
    (status p : ℕ) (k : Kernel)
    → p < nproc
    → p ≢ k.initproc
    → (k' : Kernel) × (kexit status p k ≡ ok k') × Exited status p k k'
unfolding kexit become_zombie close_all
kexit-Exited status p k h ne = (
  become_zombie status p c,
  ground arith,
  record {
    dead = ground arith;
    told = ground arith;
    adopted = λ j lt.
        (zombie-Exited status p c j lt).0
        ∙ ap (λ q. if is_parent q p then some k.initproc else q) (close_all-same status p k j lt).0;
    pids = λ j lt. (zombie-Exited status p c j lt).1 ∙ (close_all-same status p k j lt).1;
    others = λ j lt ne'.
        let (u, z) = (zombie-Exited status p c j lt).2 ne' in
        let s = (close_all-same status p k j lt).2 in
        (u ∙ ap (λ q. same_state q unused) s, z ∙ ap (λ q. same_state q zombie) s);
    next = (zombie-Exited status p c p h).3;
  },
)
  where
    c : Kernel
    c = close_all p k
