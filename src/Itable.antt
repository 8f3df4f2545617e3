-- ===== src/Itable.antt =====
-- The table of inodes of w3/kernel/fs.c: iget, idup, iput. An inode is its index in the table, and the code
-- under itable.lock is one step; iput frees an inode that nobody else can reach.
pub mod Get
pub mod Invariant
pub mod Refs
mod Tests
use os_t.Prelude.{
  ℕ, zero, suc, ◌+◌, ◌-◌, Bool, true, false, ◌&&◌, not, Option, none, some, List, [], ◌∷◌,
  if◌then◌else◌, ◌==◌, ltb, update,
}
use os_t.Prelude.Run.{Run, ok, panic}

abbrev pub ninode : ℕ
ninode = 50

-- What the table uses of `struct inode`.
pub record Entry : Type 0 where
  pub dev : ℕ
  pub inum : ℕ
  pub ref : ℕ
  pub valid : Bool
  pub nlink : ℕ

-- `ip->ref > 0 && ip->dev == dev && ip->inum == inum`
abbrev pub is_copy : ℕ → ℕ → Entry → Bool
is_copy dev inum ip = ltb 0 ip.ref && (ip.dev == dev && ip.inum == inum)

-- `if(empty == 0 && ip->ref == 0) empty = ip`
abbrev pub note_empty : Option ℕ → ℕ → Entry → Option ℕ
note_empty (some e) i ip = some e
note_empty none i ip = if ip.ref == 0 then some i else none

-- The end of iget.
abbrev pub recycle : ℕ → ℕ → Option ℕ → (ℕ → Entry) → Run (ℕ × (ℕ → Entry))
recycle dev inum none inode = panic
recycle dev inum (some e) inode =
    ok (e, update inode e (record (inode e) { dev = dev; inum = inum; ref = 1; valid = false }))

-- The loop of iget, with `n` entries left from `i` on.
unfoldable pub iget_loop : ℕ → ℕ → Option ℕ → ℕ → ℕ → (ℕ → Entry) → Run (ℕ × (ℕ → Entry))
iget_loop zero i empty dev inum inode = recycle dev inum empty inode
iget_loop (suc n) i empty dev inum inode =
    let rest = iget_loop n (suc i) (note_empty empty i (inode i)) dev inum inode in
    if is_copy dev inum (inode i)
    then ok (i, update inode i (record (inode i) { ref = (inode i).ref + 1 }))
    else rest

unfoldable pub iget : ℕ → ℕ → (ℕ → Entry) → Run (ℕ × (ℕ → Entry))
iget dev inum inode = iget_loop ninode 0 none dev inum inode

unfoldable pub idup : ℕ → (ℕ → Entry) → ℕ → Entry
idup i inode = update inode i (record (inode i) { ref = (inode i).ref + 1 })

-- What iput does to an inode that has no links and no other references.
pub data Call : Type 0 where
  itrunc : ℕ → Call
  iupdate_free : ℕ → Call

-- iput by the holder of a reference: the calls to free the inode, and the table.
unfoldable pub iput : ℕ → (ℕ → Entry) → List Call × (ℕ → Entry)
iput i inode =
    let ip = inode i in
    let freed = ip.ref == 1 && (ip.valid && ip.nlink == 0) in
    (
      if freed then itrunc i ∷ iupdate_free i ∷ [] else [],
      update inode i (record ip { ref = ip.ref - 1; valid = if freed then false else ip.valid }),
    )
