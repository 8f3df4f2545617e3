-- ===== src/Fs/Apart.antt =====
-- A block of w3/kernel/fs.c that no file has, such as that of an inode, beside the writes to a file.
use os_t.Prelude.{
  ℕ, ◌/◌, ◌%◌, ◌≤◌, ◌<◌, ◌≡◌, ◌≢◌, refl, sym, ap, subst, ◌∙◌, inl, inr, ◌==◌, update_ne, Bool-cases,
  arith,
}
use os_t.Fs.{ndirect, bblock, Superblock, Fs, Inode}
use os_t.Fs.Bitmap.{used}
use os_t.Fs.Map.{maxfile, block_of, bytes_at, IsData, IsFile, ne_of_used}
use os_t.Fs.Slot.{Mapped}
use os_t.Fs.Store.{
  stored, stored_place, stored-IsData, written_place, written_used, written-IsData, written-IsFile,
}
use os_t.Fs.Dinode.{iblock, store_dinode, iupdate}
use os_t.Fs.Bytes.{byte_at}

-- The block `n` is in use, not in the bitmap, and no block of the file.
pub record IsApart (n : ℕ) (ip : Inode) (fs : Fs) : Type 0 where
  pub is_data : IsData fs n
  pub outside : (k : ℕ) → k ≤ maxfile → block_of ip fs k ≢ n

-- bmap takes no such block, since it is in use.
pub Mapped-IsApart :
    (bn n : ℕ) (ip : Inode) (fs : Fs) (out : ℕ × Inode × Fs)
    → Mapped bn ip fs out
    → IsApart n ip fs
    → IsApart n (out.1) (out.2)
Mapped-IsApart bn n ip fs out m a = record {
  is_data = record {
    below = subst (λ (x : Superblock). n < x.size) (sym m.same_sb) a.is_data.below;
    taken = m.taken n a.is_data.below a.is_data.taken;
    no_meta =
        subst (λ (x : Superblock). (c : ℕ) → c < x.size → n ≢ bblock c x) (sym m.same_sb)
          a.is_data.no_meta;
  };
  outside = λ k lk e. elim (m.places k lk) [
    | inl same ↦ a.outside k lk (sym same ∙ e)
    | inr (hole, free) ↦ ne_of_used fs n (block_of (out.1) (out.2) k) a.is_data.taken free (sym e)
  ];
}

pub stored-IsApart :
    (n : ℕ) (ip : Inode) (fs : Fs) (k : ℕ) (v : ℕ → ℕ) (file : IsFile ip fs) (lk : k < maxfile)
    (there : block_of ip fs k ≢ 0)
    → IsApart n ip fs
    → IsApart n ip (stored ip fs k v file lk there)
stored-IsApart n ip fs k v file lk there a = record {
  is_data = stored-IsData ip fs k v file lk there n a.is_data;
  outside = λ l ll e. a.outside l ll (sym (stored_place ip fs k v file lk there l) ∙ e);
}

-- What iupdate leaves of a file whose inode lies apart from it.
module _ (ip : Inode) (fs : Fs) (file : IsFile ip fs)
    (a : IsApart (iblock ip.inum fs.sb) ip fs) where
  abbrev dinode : ℕ → ℕ
  dinode = store_dinode (fs.blocks (iblock ip.inum fs.sb)) (ip.inum % 16) ip

  no_indirect : ip.addrs ndirect ≢ 0 → ip.addrs ndirect ≢ iblock ip.inum fs.sb
  no_indirect nz = a.outside maxfile (omega arith)

  pub iupdate-IsFile : IsFile ip (iupdate ip fs)
  unfolding iupdate
  iupdate-IsFile =
      written-IsFile ip fs (iblock ip.inum fs.sb) dinode file a.is_data.below a.is_data.no_meta
        no_indirect

  iupdate_place : (l : ℕ) → block_of ip (iupdate ip fs) l ≡ block_of ip fs l
  unfolding iupdate
  iupdate_place =
      written_place ip fs (iblock ip.inum fs.sb) dinode file a.is_data.below a.is_data.no_meta
        no_indirect

  pub iupdate_used : (c : ℕ) → c < fs.sb.size → used (iupdate ip fs) c ≡ used fs c
  unfolding iupdate
  iupdate_used =
      written_used ip fs (iblock ip.inum fs.sb) dinode file a.is_data.below a.is_data.no_meta
        no_indirect

  pub iupdate-IsApart : IsApart (iblock ip.inum fs.sb) ip (iupdate ip fs)
  unfolding iupdate
  iupdate-IsApart = record {
    is_data =
        written-IsData ip fs (iblock ip.inum fs.sb) dinode file a.is_data.below a.is_data.no_meta
          no_indirect (iblock ip.inum fs.sb) a.is_data;
    outside = λ l ll e. a.outside l ll (sym (iupdate_place l) ∙ e);
  }

  pub iupdate_byte : (o : ℕ) → o < 274432 → byte_at ip (iupdate ip fs) o ≡ byte_at ip fs o
  unfolding iupdate byte_at
  iupdate_byte o lt =
      ap (λ x. bytes_at (iupdate ip fs) x (o % 1024)) (iupdate_place (o / 1024))
      ∙ elim (Bool-cases (block_of ip fs (o / 1024) == 0)) [
        | inl z ↦ rw z refl
        | inr z ↦ rw z (
            ap (λ x. x (o % 1024))
              (update_ne fs.blocks (iblock ip.inum fs.sb) dinode (block_of ip fs (o / 1024))
                (λ e. a.outside (o / 1024) (omega arith) (sym e))))
      ]
