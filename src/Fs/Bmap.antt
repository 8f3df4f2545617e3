-- ===== src/Fs/Bmap.antt =====
-- bmap of w3/kernel/fs.c.
use os_t.Prelude.{
  ℕ, ◌+◌, ◌-◌, ◌≤◌, ◌<◌, ◌≡◌, refl, sym, subst, ap, ◌∙◌, ◌≢◌, inl, inr, Bool, true, false,
  if◌then◌else◌, ltb, ◌==◌, Bool-cases, arith,
}
use os_t.Prelude.Run.{ok, panic}
use os_t.Fs.{ndirect, nindirect, Superblock, Fs, balloc, Inode, bmap_entry, bmap_slot, bmap}
use os_t.Fs.Alloc.{balloc-Allocated}
use os_t.Fs.Bitmap.{used}
use os_t.Fs.Map.{maxfile, block_of, IsFile}
use os_t.Fs.Slot.{Mapped, slot_place, slot_with, slot-Mapped}
use os_t.Fs.Entry.{entry_with, entry-Mapped}

slot_with-balloc :
    (i : ℕ) (ip : Inode) (fs : Fs) → slot_with i ip fs (balloc fs) ≡ bmap_slot i ip fs
unfolding slot_with bmap_slot
slot_with-balloc i ip fs = refl

entry_with-balloc :
    (addr j : ℕ) (ip : Inode) (fs : Fs)
    → entry_with addr j ip fs (balloc fs) ≡ bmap_entry addr j ip fs
unfolding entry_with bmap_entry
entry_with-balloc addr j ip fs = refl

bmap_slot-Mapped :
    (i : ℕ) (ip : Inode) (fs : Fs)
    → IsFile ip fs
    → i ≤ ndirect
    → Mapped (slot_place i) ip fs (bmap_slot i ip fs)
bmap_slot-Mapped i ip fs file le =
    subst (Mapped (slot_place i) ip fs) (slot_with-balloc i ip fs)
      (slot-Mapped i ip fs (balloc fs) file le (balloc-Allocated fs))

bmap_entry-Mapped :
    (addr j : ℕ) (ip : Inode) (fs : Fs)
    → IsFile ip fs
    → ip.addrs ndirect ≡ addr
    → addr ≢ 0
    → j < nindirect
    → Mapped (ndirect + j) ip fs (bmap_entry addr j ip fs)
bmap_entry-Mapped addr j ip fs file at nz lt =
    subst (λ a. Mapped (ndirect + j) ip fs (bmap_entry a j ip fs)) at
      (subst (Mapped (ndirect + j) ip fs) (entry_with-balloc (ip.addrs ndirect) j ip fs)
        (entry-Mapped j ip fs (balloc fs) file (λ e. nz (sym at ∙ e)) lt (balloc-Allocated fs)))

-- A block that is free behind a step of bmap was free before it.
free_before :
    (bn : ℕ) (ip : Inode) (fs : Fs) (out : ℕ × Inode × Fs) (a : ℕ)
    → Mapped bn ip fs out
    → a < fs.sb.size
    → used (out.2) a ≡ false
    → used fs a ≡ false
free_before bn ip fs out a m lt f = elim (Bool-cases (used fs a)) [
  | inl t ↦ absurd (let t' = m.taken a lt t in cc)
  | inr e ↦ e
]

-- One step of bmap after another.
Mapped-trans :
    (bn bn' : ℕ) (ip : Inode) (fs : Fs) (out out' : ℕ × Inode × Fs)
    → Mapped bn ip fs out
    → Mapped bn' (out.1) (out.2) out'
    → Mapped bn' ip fs out'
Mapped-trans bn bn' ip fs out out' m n = record {
  file = n.file;
  here = n.here;
  same = λ k j lk. n.same k j lk ∙ m.same k j lk;
  full = λ z c lc. n.full z c (subst (λ (x : Superblock). c < x.size) (sym m.same_sb) lc);
  same_sb = n.same_sb ∙ m.same_sb;
  same_size = n.same_size ∙ m.same_size;
  only_addrs = n.only_addrs ∙ ap (λ (x : Inode). record x { addrs = out'.1.addrs }) m.only_addrs;
  places = λ k lk. elim (n.places k lk) [
    | inl e ↦ elim (m.places k lk) [
      | inl e' ↦ inl (e ∙ e')
      | inr (hole, f) ↦ inr (hole, subst (λ x. used fs x ≡ false) (sym e) f)
    ]
    | inr (hole, f) ↦
        let nz : block_of (out'.1) (out'.2) k ≢ 0 = λ z.
          absurd
            (let b = m.file.disk.boot in let b' = subst (λ x. used (out.2) x ≡ false) z f in cc) in
        let below = (n.file.inside k lk nz).below in
        inr (
          elim (m.places k lk) [ inl e ↦ sym e ∙ hole | inr (h, g) ↦ h ],
          free_before bn ip fs out (block_of (out'.1) (out'.2) k) m
              (subst (λ (x : Superblock). block_of (out'.1) (out'.2) k < x.size)
                (n.same_sb ∙ m.same_sb) below)
              f,
        )
  ];
  taken = λ c lc t.
      n.taken c (subst (λ (x : Superblock). c < x.size) (sym m.same_sb) lc) (m.taken c lc t);
}

-- The two steps of bmap for a block behind the direct ones.
indirect-Mapped :
    (j : ℕ) (ip : Inode) (fs : Fs) (out : ℕ × Inode × Fs)
    → j < nindirect
    → Mapped maxfile ip fs out
    → Mapped
        (ndirect + j)
        ip
        fs
        (if out.0 == 0 then (0, out.1, out.2) else bmap_entry (out.0) j (out.1) (out.2))
indirect-Mapped j ip fs out lt m = elim (Bool-cases (out.0 == 0)) [
  | inl e ↦
      let z : out.0 ≡ 0 = ground arith in
      let none_there = m.here ∙ z in
      rw e record {
        file = m.file;
        here = ground arith;
        same = m.same;
        full = λ q. m.full z;
        same_sb = m.same_sb;
        same_size = m.same_size;
        only_addrs = m.only_addrs;
        places = m.places;
        taken = m.taken;
      }
  | inr e ↦ rw e (
      Mapped-trans maxfile (ndirect + j) ip fs out (bmap_entry (out.0) j (out.1) (out.2)) m
        (bmap_entry-Mapped (out.0) j (out.1) (out.2) m.file m.here (λ z. absurd (ground arith)) lt))
]

-- bmap of block `bn` of a file returns a block that the file then has there, and it leaves a file, of
-- the same size, on a disk with the same superblock. No byte of the file changes, where a hole reads as
-- zeros. It returns 0 only where every block of the disk is in use.
pub bmap_lem :
    (bn : ℕ) (ip : Inode) (fs : Fs)
    → IsFile ip fs
    → bn < maxfile
    → (out : ℕ × Inode × Fs) × (bmap bn ip fs ≡ ok out) × Mapped bn ip fs out
unfolding bmap
bmap_lem bn ip fs file lt = elim (Bool-cases (ltb bn ndirect)) [
  | inl h ↦
      let at : slot_place bn ≡ bn = ground arith in
      (
        bmap_slot bn ip fs,
        rw h refl,
        subst (λ x. Mapped x ip fs (bmap_slot bn ip fs)) at
            (bmap_slot-Mapped bn ip fs file (ground arith)),
      )
  | inr h ↦
      let inside : ltb (bn - ndirect) nindirect ≡ true = ground arith in
      let at : ndirect + (bn - ndirect) ≡ bn = ground arith in
      let first = bmap_slot ndirect ip fs in
      let out =
        (if first.0 == 0
          then (0, first.1, first.2)
          else bmap_entry (first.0) (bn - ndirect) (first.1) (first.2)) in
      (
        out,
        rw (h, inside)
            (either_ok (first.0 == 0) (0, first.1, first.2)
              (bmap_entry (first.0) (bn - ndirect) (first.1) (first.2))),
        subst (λ x. Mapped x ip fs out) at
            (indirect-Mapped (bn - ndirect) ip fs first (ground arith)
              (bmap_slot-Mapped ndirect ip fs file (omega arith))),
      )
]
  where
    either_ok :
        (c : Bool) (a b : ℕ × Inode × Fs) → (if c then ok a else ok b) ≡ ok (if c then a else b)
    either_ok true a b = refl
    either_ok false a b = refl

-- bmap panics on a block past the end of the largest file.
pub bmap_out_of_range : (bn : ℕ) (ip : Inode) (fs : Fs) → maxfile ≤ bn → bmap bn ip fs ≡ panic
unfolding bmap
bmap_out_of_range bn ip fs le =
    let h : ltb bn ndirect ≡ false = ground arith in
    let out : ltb (bn - ndirect) nindirect ≡ false = ground arith in rw (h, out) refl
