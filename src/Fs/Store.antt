-- ===== src/Fs/Store.antt =====
-- Writes to blocks of the disk beside a file of w3/kernel/fs.c, and to its data blocks.
use os_t.Prelude.{
  ℕ, ◌%◌, ◌<◌, ◌≡◌, ◌≢◌, refl, sym, ap, subst, ◌∙◌, inl, inr, false, if◌then◌else◌, ◌==◌,
  update_self, update_ne, Bool-cases, arith,
}
use os_t.Fs.{ndirect, bpb, bblock, Fs, set_block, in_use, Inode}
use os_t.Fs.Bitmap.{used}
use os_t.Fs.Map.{maxfile, block_of, with_blocks, content, bytes_at, IsData, IsFile}

pub nonzero_test : (a : ℕ) → a ≢ 0 → (a == 0) ≡ false
nonzero_test a nz = ground arith

pub is_nonzero : (a : ℕ) → (a == 0) ≡ false → a ≢ 0
is_nonzero a h e = absurd (ground arith)

-- Where the blocks of a file lie depends on its indirect block alone.
same_places :
    (ip : Inode) (fs : Fs) (b b' : ℕ → ℕ → ℕ) (l : ℕ)
    → (ip.addrs ndirect ≢ 0 → b (ip.addrs ndirect) ≡ b' (ip.addrs ndirect))
    → block_of ip (with_blocks fs b) l ≡ block_of ip (with_blocks fs b') l
same_places ip fs b b' l same = elim (Bool-cases (ip.addrs ndirect == 0)) [
  | inl none_there ↦ rw none_there refl
  | inr some_there ↦ rw (some_there, same (is_nonzero (ip.addrs ndirect) some_there)) refl
]

-- A write to a block that is not in the bitmap and not the indirect block of the file.
module _ (ip : Inode) (fs : Fs) (n : ℕ) (v : ℕ → ℕ) (file : IsFile ip fs) (inside : n < fs.sb.size)
    (no_map : (c : ℕ) → c < fs.sb.size → n ≢ bblock c fs.sb)
    (no_indirect : ip.addrs ndirect ≢ 0 → ip.addrs ndirect ≢ n) where
  pub written_place : (l : ℕ) → block_of ip (set_block n v fs) l ≡ block_of ip fs l
  written_place l =
      same_places ip fs (set_block n v fs).blocks fs.blocks l
        (λ nz. update_ne fs.blocks n v (ip.addrs ndirect) (λ e. no_indirect nz (sym e)))

  pub written_used : (c : ℕ) → c < fs.sb.size → used (set_block n v fs) c ≡ used fs c
  written_used c lt =
      ap (λ (x : ℕ → ℕ). in_use x (c % bpb))
        (update_ne fs.blocks n v (bblock c fs.sb) (no_map c lt))

  pub written-IsData : (a : ℕ) → IsData fs a → IsData (set_block n v fs) a
  written-IsData a d = record {
    below = d.below;
    taken = written_used a d.below ∙ d.taken;
    no_meta = d.no_meta;
  }

  pub written-IsFile : IsFile ip (set_block n v fs)
  written-IsFile = record {
    disk = record {
      roomy = file.disk.roomy;
      boot = written_used 0 (omega arith) ∙ file.disk.boot;
      meta_in = file.disk.meta_in;
      meta = λ c lt. written_used (bblock c fs.sb) (file.disk.meta_in c lt) ∙ file.disk.meta c lt;
    };
    inside = λ l ll nz.
        subst (IsData (set_block n v fs)) (sym (written_place l))
          (written-IsData (block_of ip fs l) (file.inside l ll (λ z. nz (written_place l ∙ z))));
    distinct = λ l l' ll ll' ne nz e.
        file.distinct l l' ll ll' ne (λ z. nz (written_place l ∙ z))
          (sym (written_place l) ∙ e ∙ written_place l');
  }

module _ (ip : Inode) (fs : Fs) (k : ℕ) (v : ℕ → ℕ) (file : IsFile ip fs) (lk : k < maxfile)
    (there : block_of ip fs k ≢ 0) where
  abbrev pub stored : Fs
  stored = set_block (block_of ip fs k) v fs

  kept : (n : ℕ) → n ≢ block_of ip fs k → stored.blocks n ≡ fs.blocks n
  kept n ne = update_ne fs.blocks (block_of ip fs k) v n (λ e. ne (sym e))

  place : IsData fs (block_of ip fs k)
  place = file.inside k (omega arith) there

  indirect_apart : ip.addrs ndirect ≢ 0 → ip.addrs ndirect ≢ block_of ip fs k
  indirect_apart nz e =
      file.distinct k maxfile (omega arith) (omega arith) (λ h. absurd (omega arith)) there (sym e)

  pub stored_place : (l : ℕ) → block_of ip stored l ≡ block_of ip fs l
  stored_place =
      written_place ip fs (block_of ip fs k) v file place.below place.no_meta indirect_apart

  pub stored-IsData : (a : ℕ) → IsData fs a → IsData stored a
  stored-IsData =
      written-IsData ip fs (block_of ip fs k) v file place.below place.no_meta indirect_apart

  pub stored-IsFile : IsFile ip stored
  stored-IsFile =
      written-IsFile ip fs (block_of ip fs k) v file place.below place.no_meta indirect_apart

  -- The block has the new bytes, and the others what they had.
  pub stored_content :
      (l j : ℕ) → l < maxfile → content ip stored l j ≡ (if l == k then v j else content ip fs l j)
  stored_content l j ll = elim (Bool-cases (l == k)) [
    | inl same ↦
        let place : l ≡ k = ground arith in
        let here : block_of ip stored l ≡ block_of ip fs k =
          stored_place l ∙ ap (block_of ip fs) place in
        let nz : (block_of ip fs k == 0) ≡ false = nonzero_test (block_of ip fs k) there in
        ap (λ a. bytes_at stored a j) here
        ∙ rw (nz, same) (ap (λ x. x j) (update_self fs.blocks (block_of ip fs k) v))
    | inr differs ↦
        ap (λ a. bytes_at stored a j) (stored_place l)
        ∙ rw differs (elim (Bool-cases (block_of ip fs l == 0)) [
          | inl z ↦ rw z refl
          | inr nz ↦ rw nz (
              ap (λ x. x j)
                (kept (block_of ip fs l) (λ e.
                  file.distinct l k (omega arith) (omega arith) (λ h. absurd (ground arith))
                    (is_nonzero (block_of ip fs l) nz) e)))
        ])
  ]
