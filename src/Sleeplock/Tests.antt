-- ===== src/Sleeplock/Tests.antt =====
-- Process 7 takes the lock, and process 9 sleeps.
use os_t.Prelude.{ℕ, ◌≡◌, refl, true, false, none, some, update}
use os_t.Sleeplock.{
  Sleeplock, initsleeplock, acquiresleep, holdingsleep, Users, acquire, Reach, start, next,
  Reach-holdingsleep,
}

abbrev taken : Sleeplock
taken = record { locked = true; pid = 7 }

abbrev seven : Users
seven = record { lock = taken; inside = update (λ p. false) 7 true }

nine_sleeps : acquiresleep taken 9 ≡ none
unfolding acquiresleep
nine_sleeps = refl

seven_reached : Reach seven
unfolding acquiresleep initsleeplock
seven_reached = next start (acquire 7 taken refl)

Reach-holdingsleep_example :
    (holdingsleep taken 7 ≡ true)
    × (seven.inside 7 ≡ true → seven.inside 9 ≡ true → ◌≡◌ {A = ℕ} 7 9)
    × (((k : ℕ) → seven.inside k ≡ false)
        → acquiresleep taken 7 ≡ some (record { locked = true; pid = 7 }))
Reach-holdingsleep_example = Reach-holdingsleep 7 9 seven_reached
