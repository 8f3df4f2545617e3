-- ===== src/Proc/Family.antt =====
-- wakeup, reparent, kexit and kwait of w3/kernel/proc.c: who is woken, and whose child is whose.
use os_t.Prelude.{
  ℕ, zero, suc, ◌+◌, ◌<◌, ◌≡◌, refl, sym, subst, ◌∙◌, inl, inr, Bool, ◌&&◌, not, Option, some,
  arith, if◌then◌else◌, ltb, leb, ◌==◌, Bool-cases,
}
use os_t.Proc.{
  nproc, unused, zombie, same_state, Proc, Kernel, Chan, proc_at, update, set_proc, is_parent,
}
use os_t.Proc.Sched.{wake, wake_loop, wakeup}
use os_t.Proc.Exit.{reparent_loop, reparent}

wake_loop_lem :
    (n i : ℕ) (c : Chan) (me : ℕ) (f : ℕ → Proc) (j : ℕ)
    → wake_loop n i c me f j
      ≡ (if leb i j && ltb j (i + n) && not (j == me) then wake c (f j) else f j)
unfolding wake_loop
wake_loop_lem zero i c me f j = ground arith
wake_loop_lem (suc n) i c me f j =
    ground
      (arith, wake_loop_lem n (i + 1) c me (if i == me then f else update f i (wake c (f i))) j)

-- wakeup makes runnable exactly the other processes that sleep on the channel, and changes nothing
-- else.
pub wakeup_lem :
    (c : Chan) (me : ℕ) (k : Kernel) (j : ℕ)
    → j < nproc
    → ((wakeup c me k).proc j ≡ (if j == me then k.proc j else wake c (k.proc j)))
      × ((wakeup c me k).nextpid ≡ k.nextpid)
      × ((wakeup c me k).initproc ≡ k.initproc)
unfolding wakeup
wakeup_lem c me k j h = (ground (arith, wake_loop_lem nproc 0 c me k.proc j), refl, refl)

-- The identity of a process: its pid, whether its slot is free, whether it has exited.
pub record SameIds (p p' : Proc) : Type 0 where
  pub same_pid : p'.pid ≡ p.pid
  pub same_unused : same_state p'.state unused ≡ same_state p.state unused
  pub same_zombie : same_state p'.state zombie ≡ same_state p.state zombie

pub SameIds-refl : (p : Proc) → SameIds p p
SameIds-refl p = record { same_pid = refl; same_unused = refl; same_zombie = refl }

SameIds-trans : {p q r : Proc} → SameIds p q → SameIds q r → SameIds p r
SameIds-trans a b = record {
  same_pid = b.same_pid ∙ a.same_pid;
  same_unused = b.same_unused ∙ a.same_unused;
  same_zombie = b.same_zombie ∙ a.same_zombie;
}

wake-SameIds : (c : Chan) (p : Proc) → SameIds p (wake c p)
unfolding wake
wake-SameIds c p = record {
  same_pid = ground arith;
  same_unused = ground arith;
  same_zombie = ground arith;
}

parent-wake : (c : Chan) (p : Proc) → (wake c p).parent ≡ p.parent
unfolding wake
parent-wake c p = ground arith

-- What wakeup leaves of a process.
pub wakeup-SameIds :
    (c : Chan) (me : ℕ) (k : Kernel) (j : ℕ)
    → j < nproc
    → SameIds (k.proc j) ((wakeup c me k).proc j)
      × (((wakeup c me k).proc j).parent ≡ (k.proc j).parent)
wakeup-SameIds c me k j h = elim (Bool-cases (j == me)) [
  | inl e ↦
      let same : (wakeup c me k).proc j ≡ k.proc j = rw (wakeup_lem c me k j h).0 (rw e refl) in
      rw same (SameIds-refl (k.proc j), refl)
  | inr e ↦
      let same : (wakeup c me k).proc j ≡ wake c (k.proc j) =
        rw (wakeup_lem c me k j h).0 (rw e refl) in
      rw same (wake-SameIds c (k.proc j), parent-wake c (k.proc j))
]

-- One round of reparent's loop.
abbrev round : ℕ → ℕ → Kernel → Kernel
round i p k =
    if is_parent ((k.proc i).parent) p
    then wakeup (proc_at k.initproc) p
        (set_proc i (record (k.proc i) { parent = some k.initproc }) k)
    else k

record Reparented (p : ℕ) (inside : Bool) (k k' : Kernel) (j : ℕ) : Type 0 where
  ids : SameIds (k.proc j) (k'.proc j)
  parent :
      (k'.proc j).parent
      ≡ (if inside && is_parent ((k.proc j).parent) p then some k.initproc else (k.proc j).parent)
  init : k'.initproc ≡ k.initproc
  next : k'.nextpid ≡ k.nextpid

set_proc-ids :
    (i j : ℕ) (k : Kernel) (q : Option ℕ)
    → SameIds (k.proc j) ((set_proc i (record (k.proc i) { parent = q }) k).proc j)
set_proc-ids i j k q = elim (Bool-cases (i == j)) [
  | inl e ↦
      let e' : i ≡ j = ground arith in
      rw e (
        subst (λ t. SameIds (k.proc j) (record (k.proc t) { parent = q })) (sym e')
          (record { same_pid = refl; same_unused = refl; same_zombie = refl }))
  | inr e ↦ rw e (SameIds-refl (k.proc j))
]

round-Reparented :
    (i p : ℕ) (k : Kernel) (j : ℕ) → j < nproc → Reparented p (i == j) k (round i p k) j
round-Reparented i p k j h = elim (Bool-cases (is_parent ((k.proc i).parent) p)) [
  | inl e ↦
      let k1 = set_proc i (record (k.proc i) { parent = some k.initproc }) k in
      let (ids, par) = wakeup-SameIds (proc_at k.initproc) p k1 j h in
      let (_, nx, ini) = wakeup_lem (proc_at k.initproc) p k1 j h in
      rw e (record {
        ids = SameIds-trans (set_proc-ids i j k (some k.initproc)) ids;
        parent = par ∙ ground arith;
        init = ini;
        next = nx;
      })
  | inr e ↦
      rw e
        (record { ids = SameIds-refl (k.proc j); parent = ground arith; init = refl; next = refl })
]

reparent_loop-Reparented :
    (n i p : ℕ) (k : Kernel) (j : ℕ)
    → j < nproc
    → Reparented p (leb i j && ltb j (i + n)) k (reparent_loop n i p k) j
unfolding reparent_loop
reparent_loop-Reparented zero i p k j h = record {
  ids = SameIds-refl (k.proc j);
  parent = ground arith;
  init = refl;
  next = refl;
}
reparent_loop-Reparented (suc n) i p k j h =
    let one = round-Reparented i p k j h in
    let rest = reparent_loop-Reparented n (i + 1) p (round i p k) j h in
    record {
      ids = SameIds-trans one.ids rest.ids;
      parent = rest.parent ∙ rw (one.parent, one.init) (twice (k.proc j).parent);
      init = rest.init ∙ one.init;
      next = rest.next ∙ one.next;
    }
  where
    twice :
        (q : Option ℕ)
        → (if (leb (i + 1) j && ltb j (i + 1 + n))
              && is_parent (if (i == j) && is_parent q p then some k.initproc else q) p
            then some k.initproc
            else if (i == j) && is_parent q p
            then some k.initproc
            else q)
          ≡ (if (leb i j && ltb j (i + suc n)) && is_parent q p then some k.initproc else q)
    twice q = ground arith

-- After reparent by `p` every child of `p` is a child of init, and nobody else has a new parent; no
-- process changes its pid, and none is freed or exits.
pub reparent_lem :
    (p : ℕ) (k : Kernel) (j : ℕ)
    → j < nproc
    → (((reparent p k).proc j).parent
        ≡ (if is_parent ((k.proc j).parent) p then some k.initproc else (k.proc j).parent))
      × SameIds (k.proc j) ((reparent p k).proc j)
      × ((reparent p k).nextpid ≡ k.nextpid)
unfolding reparent
reparent_lem p k j h =
    let r = reparent_loop-Reparented nproc 0 p k j h in (r.parent ∙ ground arith, r.ids, r.next)
