-- ===== src/Itable/Refs.antt =====
-- The table of inodes of w3/kernel/fs.c under any sequence of calls by code that holds references.
use os_t.Prelude.{ℕ, ◌+◌, ◌<◌, ◌≡◌, refl, subst, ◌∙◌, [], ◌∷◌, arith}
use os_t.Prelude.Run.{Run, ok, ok_injective}
use os_t.File.Refs.{holders, without}
use os_t.Itable.{Entry, iget, idup, iput}
use os_t.Itable.Get.{Got, all_held, found, fresh, iget-Got}
use os_t.Itable.Invariant.{
  System, IsTable, kept-IsTable, written-IsTable, raised, lowered, copy_fields, fresh-IsTable,
}

-- A call of iget that returns, of idup or iput by the holder of a reference, or a write to the other
-- fields of inodes, as ilock and the holders do.
pub data Step (s : System) : System → Type 0 where
  get :
      (dev inum i : ℕ) (inode : ℕ → Entry)
      → iget dev inum s.inode ≡ ok (i, inode)
      → Step s (record { inode = inode; refs = i ∷ s.refs })
  dup :
      (i : ℕ) → 0 < holders i s.refs → Step s (record { inode = idup i s.inode; refs = i ∷ s.refs })
  put :
      (i : ℕ)
      → 0 < holders i s.refs
      → Step s (record { inode = (iput i s.inode).1; refs = without i s.refs })
  set :
      (inode : ℕ → Entry)
      → ((i : ℕ) → (inode i).ref ≡ (s.inode i).ref)
      → ((i : ℕ) → (inode i).dev ≡ (s.inode i).dev)
      → ((i : ℕ) → (inode i).inum ≡ (s.inode i).inum)
      → Step s (record { inode = inode; refs = s.refs })

pub data Reach : System → Type 0 where
  boot :
      (inode : ℕ → Entry)
      → ((i : ℕ) → (inode i).ref ≡ 0)
      → Reach (record { inode = inode; refs = [] })
  next : {s t : System} → Reach s → Step s t → Reach t

Step-IsTable : {s t : System} → Step s t → IsTable s → IsTable t
unfolding idup iput
Step-IsTable {s} (get dev inum i inode e) h =
    go (iget dev inum s.inode) (iget-Got dev inum s.inode) e
  where
    go :
        (r : Run (ℕ × (ℕ → Entry)))
        → Got dev inum s.inode r
        → r ≡ ok (i, inode)
        → IsTable (record { inode = inode; refs = i ∷ s.refs })
    go r (all_held all) e' = absurd (cc)
    go r (found k lt copy) e' =
        subst (λ (x : ℕ × (ℕ → Entry)). IsTable (record { inode = x.1; refs = x.0 ∷ s.refs }))
          (ok_injective e')
          (written-IsTable s k (record (s.inode k) { ref = (s.inode k).ref + 1 }) (k ∷ s.refs) h
            refl refl ((copy_fields dev inum (s.inode k) copy).0) (λ j. raised s k j h))
    go r (fresh k lt z other) e' =
        subst (λ (x : ℕ × (ℕ → Entry)). IsTable (record { inode = x.1; refs = x.0 ∷ s.refs }))
          (ok_injective e') (fresh-IsTable s dev inum k h z other)
Step-IsTable {s} (dup i held) h =
    written-IsTable s i _ (i ∷ s.refs) h refl refl (rw (h.counts i) held) (λ j. raised s i j h)
Step-IsTable {s} (put i held) h =
    written-IsTable s i _ (without i s.refs) h refl refl (rw (h.counts i) held)
      (λ j. lowered s i j h held)
Step-IsTable {s} (set inode refs devs inums) h =
    kept-IsTable s inode s.refs h (λ i. refs i ∙ h.counts i) devs inums
      (λ i u. subst (λ n. 0 < n) (refs i) u)

-- However code that holds references to inodes gets, duplicates and puts them: the count of each entry of
-- the table is the number of references that are held to it, and no two entries in use are for the same
-- inode of the same device.
pub Reach-IsTable : {s : System} → Reach s → IsTable s
unfolding holders
Reach-IsTable (boot inode z) = record {
  counts = z;
  unique = λ i j li lj ui uj d n. absurd (let e = z i in omega arith);
}
Reach-IsTable (next r step) = Step-IsTable step (Reach-IsTable r)
