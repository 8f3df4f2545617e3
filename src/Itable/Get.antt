-- ===== src/Itable/Get.antt =====
-- iget of w3/kernel/fs.c on the table of inodes.
use os_t.Prelude.{
  ℕ, zero, suc, ◌+◌, ◌<◌, ◌≡◌, inl, inr, true, false, Option, none, some, ◌==◌, update, Bool-cases,
  arith,
}
use os_t.Prelude.Run.{Run, ok, panic}
use os_t.Itable.{ninode, Entry, is_copy, note_empty, recycle, iget_loop, iget}

-- What iget returns, and leaves: the copy that there is, or a new one; or every entry is held.
pub data Got (dev inum : ℕ) (inode : ℕ → Entry) : Run (ℕ × (ℕ → Entry)) → Type 0 where
  all_held : ((j : ℕ) → j < ninode → 0 < (inode j).ref) → Got dev inum inode panic
  found :
      (i : ℕ)
      → i < ninode
      → is_copy dev inum (inode i) ≡ true
      → Got dev inum inode (ok (i, update inode i (record (inode i) { ref = (inode i).ref + 1 })))
  fresh :
      (i : ℕ)
      → i < ninode
      → (inode i).ref ≡ 0
      → ((j : ℕ) → j < ninode → is_copy dev inum (inode j) ≡ false)
      → Got dev inum inode (
          ok (
            i,
            update inode i (record (inode i) { dev = dev; inum = inum; ref = 1; valid = false }),
          ))

-- What the loop knows of the entries before `i`.
data Noted (i : ℕ) (inode : ℕ → Entry) : Option ℕ → Type 0 where
  nothing : ((j : ℕ) → j < i → 0 < (inode j).ref) → Noted i inode none
  empty_at : (e : ℕ) → e < i → (inode e).ref ≡ 0 → Noted i inode (some e)

note :
    (i : ℕ) (inode : ℕ → Entry) (empty : Option ℕ)
    → Noted i inode empty
    → Noted (suc i) inode (note_empty empty i (inode i))
note i inode empty (empty_at e lt z) = empty_at e (omega arith) z
note i inode empty (nothing all) = elim (Bool-cases ((inode i).ref == 0)) [
  | inl z ↦ rw z (empty_at i (omega arith) (ground arith))
  | inr nz ↦ rw nz (
      nothing (λ j lt. elim (Bool-cases (i == j)) [
        | inl same ↦ let place : i ≡ j = ground arith in rw (← place) (ground arith)
        | inr differs ↦ all j (ground arith)
      ]))
]

recycle-Got :
    (dev inum i : ℕ) (inode : ℕ → Entry) (empty : Option ℕ)
    → i ≡ ninode
    → Noted i inode empty
    → ((j : ℕ) → j < i → is_copy dev inum (inode j) ≡ false)
    → Got dev inum inode (recycle dev inum empty inode)
recycle-Got dev inum i inode empty e (nothing all) other = all_held (λ j lt. all j (omega arith))
recycle-Got dev inum i inode empty e (empty_at k lt z) other =
    fresh k (omega arith) z (λ j below. other j (omega arith))

iget_loop-Got :
    (n i dev inum : ℕ) (inode : ℕ → Entry) (empty : Option ℕ)
    → i + n ≡ ninode
    → Noted i inode empty
    → ((j : ℕ) → j < i → is_copy dev inum (inode j) ≡ false)
    → Got dev inum inode (iget_loop n i empty dev inum inode)
unfolding iget_loop
iget_loop-Got zero i dev inum inode empty e noted other =
    recycle-Got dev inum i inode empty (omega arith) noted other
iget_loop-Got (suc n) i dev inum inode empty e noted other =
    elim (Bool-cases (is_copy dev inum (inode i))) [
      | inl copy ↦ rw copy (found i (omega arith) copy)
      | inr no_copy ↦ rw no_copy (
          iget_loop-Got n (suc i) dev inum inode _ (omega arith) (note i inode empty noted) (λ j lt.
            elim (Bool-cases (i == j)) [
              | inl same ↦ let place : i ≡ j = ground arith in rw (← place) no_copy
              | inr differs ↦ other j (ground arith)
            ]))
    ]

-- iget of an inode gives an entry of the table: the one that is in use for it, with one more reference, or,
-- where there is none, an entry with no reference, which then is for that inode, with one reference and not
-- valid; the other entries stay. It panics only where each of the NINODE entries has a reference.
pub iget-Got : (dev inum : ℕ) (inode : ℕ → Entry) → Got dev inum inode (iget dev inum inode)
unfolding iget
iget-Got dev inum inode =
    iget_loop-Got ninode 0 dev inum inode none (omega arith)
      (nothing (λ j lt. absurd (omega arith))) (λ j lt. absurd (omega arith))
