-- ===== src/Itable/Tests.antt =====
-- Runs of the table of inodes.
use os_t.Prelude.{ℕ, ◌≡◌, refl, true, false, [], ◌∷◌, update}
use os_t.Itable.{Entry, iget_loop, iget, itrunc, iupdate_free, iput}
use os_t.Itable.Get.{Got, iget-Got}
use os_t.Itable.Invariant.{IsTable}
use os_t.Itable.Refs.{get, Reach, boot, next, Reach-IsTable}

abbrev nowhere : Entry
nowhere = record { dev = 0; inum = 0; ref = 0; valid = false; nlink = 0 }

abbrev table : ℕ → Entry
table i = nowhere

-- Inode 7 of device 1, in entry 0.
abbrev seven : ℕ → Entry
seven = update table 0 (record { dev = 1; inum = 7; ref = 1; valid = false; nlink = 0 })

-- A valid inode with no links is freed by its last iput.
last_put :
    (iput 0 (update seven 0 (record (seven 0) { valid = true }))).0 ≡ itrunc 0 ∷ iupdate_free 0 ∷ []
unfolding iput
last_put = refl

one_get : Reach (record { inode = seven; refs = 0 ∷ [] })
unfolding iget iget_loop
one_get = next (boot table (λ i. refl)) (get 1 7 0 seven refl)

iget-Got_example : Got 1 7 seven (iget 1 7 seven)
iget-Got_example = iget-Got 1 7 seven

Reach-IsTable_example : IsTable (record { inode = seven; refs = 0 ∷ [] })
Reach-IsTable_example = Reach-IsTable one_get
