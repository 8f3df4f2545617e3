-- ===== src/Sleeplock.antt =====
-- w3/kernel/sleeplock.c. Code under the spinlock of a sleep lock is one step; a process that finds the
-- lock taken sleeps, and tries again when it is woken.
mod Tests
use os_t.Prelude.{
  ℕ, ◌≡◌, refl, inl, inr, Bool, true, false, ◌&&◌, Option, none, some, if◌then◌else◌, ◌==◌, update,
  Bool-cases, ==_iff, arith,
}

pub record Sleeplock : Type 0 where
  pub locked : Bool
  pub pid : ℕ

pub initsleeplock : Sleeplock
initsleeplock = record { locked = false; pid = 0 }

-- A round of acquiresleep by the process `pid`: `none` where it sleeps.
pub acquiresleep : Sleeplock → ℕ → Option Sleeplock
acquiresleep lk pid = if lk.locked then none else some (record { locked = true; pid = pid })

pub releasesleep : Sleeplock → Sleeplock
releasesleep lk = record { locked = false; pid = 0 }

pub holdingsleep : Sleeplock → ℕ → Bool
holdingsleep lk pid = lk.locked && (lk.pid == pid)

-- The lock, and the processes that have returned from acquiresleep and not called releasesleep since.
pub record Users : Type 0 where
  pub lock : Sleeplock
  pub inside : ℕ → Bool

pub data Step (u : Users) : Users → Type 0 where
  acquire :
      (p : ℕ) (lk : Sleeplock)
      → acquiresleep u.lock p ≡ some lk
      → Step u (record u { lock = lk; inside = update u.inside p true })
  release :
      (p : ℕ)
      → u.inside p ≡ true
      → Step u (record u { lock = releasesleep u.lock; inside = update u.inside p false })

pub data Reach : Users → Type 0 where
  start : Reach (record { lock = initsleeplock; inside = λ p. false })
  next : {u v : Users} → Reach u → Step u v → Reach v

Step-holdingsleep :
    {u v : Users}
    → Step u v
    → ((p : ℕ) → holdingsleep u.lock p ≡ u.inside p)
    → (p : ℕ) → holdingsleep v.lock p ≡ v.inside p
unfolding holdingsleep acquiresleep releasesleep
Step-holdingsleep (acquire p lk e) h q = ground (arith, h q, h p)
Step-holdingsleep (release p e) h q = ground (arith, h q, h p)

Reach-holds : {u : Users} → Reach u → (p : ℕ) → holdingsleep u.lock p ≡ u.inside p
unfolding holdingsleep initsleeplock
Reach-holds start p = refl
Reach-holds (next r s) p = Step-holdingsleep s (Reach-holds r) p

-- However processes acquire and release the lock, holdingsleep tells each whether it has it, no two have
-- it at once, and where none has it a call of acquiresleep gets it.
pub Reach-holdingsleep :
    {u : Users} (p q : ℕ)
    → Reach u
    → (holdingsleep u.lock p ≡ u.inside p)
      × (u.inside p ≡ true → u.inside q ≡ true → p ≡ q)
      × (((k : ℕ) → u.inside k ≡ false)
          → acquiresleep u.lock p ≡ some (record { locked = true; pid = p }))
unfolding holdingsleep acquiresleep
Reach-holdingsleep {u} p q r = (
  Reach-holds r p,
  λ i j. ground (arith, Reach-holds r p, Reach-holds r q),
  λ free. ground (arith, Reach-holds r u.lock.pid, free u.lock.pid),
)
