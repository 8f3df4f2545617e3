-- ===== src/Fs/Dinode.antt =====
-- The inodes on the disk of w3/kernel/fs.c, with the record of w3/kernel/fs.h: iupdate, and the copy that ilock makes.
use os_t.Prelude.{
  ℕ, zero, suc, ◌+◌, ◌*◌, ◌/◌, ◌%◌, ◌≤◌, ◌<◌, ◌≡◌, ◌≢◌, refl, sym, ◌∙◌, ◌⊎◌, inl, inr,
  if◌then◌else◌, ◌==◌, Bool-cases, update_self, update_ne, arith,
}
use os_t.Fs.{Superblock, Fs, set_block, load32, store32, Inode}
use os_t.Fs.Words.{load32-store32_self, load32-store32_ne}

-- IBLOCK, with 16 inodes to a block
abbrev pub iblock : ℕ → Superblock → ℕ
iblock i sb = i / 16 + sb.inodestart

-- The halfword `j` of a block, the low byte first.
pub load16 : (ℕ → ℕ) → ℕ → ℕ
load16 bytes j = bytes (2 * j) + 256 * bytes (2 * j + 1)

pub store16 : (ℕ → ℕ) → ℕ → ℕ → ℕ → ℕ
store16 bytes j v i =
    if i == 2 * j then v % 256 else if i == 2 * j + 1 then v / 256 % 256 else bytes i

-- The memmove of the first `n` words of `addrs`, to or from the words from `j` on.
pub store_addrs : ℕ → (ℕ → ℕ) → ℕ → (ℕ → ℕ) → ℕ → ℕ
store_addrs zero bytes j addrs = bytes
store_addrs (suc n) bytes j addrs = store32 (store_addrs n bytes j addrs) (j + n) (addrs n)

-- The assignments of iupdate to the dinode `d` of a block.
pub store_dinode : (ℕ → ℕ) → ℕ → Inode → ℕ → ℕ
store_dinode bytes d ip =
    let b1 = store16 bytes (32 * d) ip.type in
    let b2 = store16 b1 (32 * d + 1) ip.major in
    let b3 = store16 b2 (32 * d + 2) ip.minor in
    let b4 = store16 b3 (32 * d + 3) ip.nlink in
    store_addrs 13 (store32 b4 (16 * d + 2) ip.size) (16 * d + 3) ip.addrs

unfoldable pub iupdate : Inode → Fs → Fs
iupdate ip fs =
    let bno = iblock ip.inum fs.sb in
    set_block bno (store_dinode (fs.blocks bno) (ip.inum % 16) ip) fs

-- The copy of ilock, for an inode that is not valid: its 13 addresses are those below 13.
pub load_dinode : (ℕ → ℕ) → ℕ → ℕ → Inode
load_dinode bytes d inum = record {
  inum = inum;
  type = load16 bytes (32 * d);
  major = load16 bytes (32 * d + 1);
  minor = load16 bytes (32 * d + 2);
  nlink = load16 bytes (32 * d + 3);
  size = load32 bytes (16 * d + 2);
  addrs = λ i. load32 bytes (16 * d + 3 + i);
}

pub read_inode : ℕ → Fs → Inode
read_inode inum fs = load_dinode (fs.blocks (iblock inum fs.sb)) (inum % 16) inum

load16-store16_self : (bytes : ℕ → ℕ) (j v : ℕ) → v < 65536 → load16 (store16 bytes j v) j ≡ v
unfolding load16 store16
load16-store16_self bytes j v lt = ground arith

load16-store16_ne :
    (bytes : ℕ → ℕ) (j v i : ℕ) → i ≢ j → load16 (store16 bytes j v) i ≡ load16 bytes i
unfolding load16 store16
load16-store16_ne bytes j v i ne = ground arith

load16-store32 :
    (bytes : ℕ → ℕ) (j v i : ℕ)
    → i ≢ 2 * j
    → i ≢ 2 * j + 1
    → load16 (store32 bytes j v) i ≡ load16 bytes i
unfolding load16 store32
load16-store32 bytes j v i ne ne' = ground arith

load32-store16 :
    (bytes : ℕ → ℕ) (j v i : ℕ)
    → j ≢ 2 * i
    → j ≢ 2 * i + 1
    → load32 (store16 bytes j v) i ≡ load32 bytes i
unfolding load32 store16
load32-store16 bytes j v i ne ne' = ground arith

load16-store_addrs :
    (n : ℕ) (bytes : ℕ → ℕ) (j : ℕ) (addrs : ℕ → ℕ) (i : ℕ)
    → (i < 2 * j) ⊎ (2 * (j + n) ≤ i)
    → load16 (store_addrs n bytes j addrs) i ≡ load16 bytes i
unfolding store_addrs
load16-store_addrs zero bytes j addrs i out = refl
load16-store_addrs (suc n) bytes j addrs i out =
    load16-store32 (store_addrs n bytes j addrs) (j + n) (addrs n) i (ground (arith, out))
      (ground (arith, out))
    ∙ load16-store_addrs n bytes j addrs i (ground (arith, out))

load32-store_addrs_ne :
    (n : ℕ) (bytes : ℕ → ℕ) (j : ℕ) (addrs : ℕ → ℕ) (i : ℕ)
    → (i < j) ⊎ (j + n ≤ i)
    → load32 (store_addrs n bytes j addrs) i ≡ load32 bytes i
unfolding store_addrs
load32-store_addrs_ne zero bytes j addrs i out = refl
load32-store_addrs_ne (suc n) bytes j addrs i out =
    load32-store32_ne (store_addrs n bytes j addrs) (j + n) (addrs n) i (ground (arith, out))
    ∙ load32-store_addrs_ne n bytes j addrs i (ground (arith, out))

load32-store_addrs :
    (n : ℕ) (bytes : ℕ → ℕ) (j : ℕ) (addrs : ℕ → ℕ) (i : ℕ)
    → i < n
    → addrs i < 4294967296
    → load32 (store_addrs n bytes j addrs) (j + i) ≡ addrs i
unfolding store_addrs
load32-store_addrs zero bytes j addrs i lt small = absurd (omega arith)
load32-store_addrs (suc n) bytes j addrs i lt small = elim (Bool-cases (i == n)) [
  | inl last ↦
      let e : n ≡ i = ground arith in
      rw e (load32-store32_self (store_addrs i bytes j addrs) (j + i) (addrs i) small)
  | inr before ↦
      load32-store32_ne (store_addrs n bytes j addrs) (j + n) (addrs n) (j + i) (ground arith)
      ∙ load32-store_addrs n bytes j addrs i (ground arith) small
]

-- The fields fit the record on the disk.
pub record IsPacked (ip : Inode) : Type 0 where
  pub type_fits : ip.type < 65536
  pub major_fits : ip.major < 65536
  pub minor_fits : ip.minor < 65536
  pub nlink_fits : ip.nlink < 65536
  pub size_fits : ip.size < 4294967296
  pub addrs_fit : (i : ℕ) → i < 13 → ip.addrs i < 4294967296

-- What is the same of two inodes.
pub record SameInode (ip ip' : Inode) : Type 0 where
  pub same_type : ip.type ≡ ip'.type
  pub same_major : ip.major ≡ ip'.major
  pub same_minor : ip.minor ≡ ip'.minor
  pub same_nlink : ip.nlink ≡ ip'.nlink
  pub same_size : ip.size ≡ ip'.size
  pub same_addrs : (i : ℕ) → i < 13 → ip.addrs i ≡ ip'.addrs i

same_inode : (ip : Inode) → SameInode ip ip
same_inode ip = record {
  same_type = refl;
  same_major = refl;
  same_minor = refl;
  same_nlink = refl;
  same_size = refl;
  same_addrs = λ i lt. refl;
}

module _ (bytes : ℕ → ℕ) (d : ℕ) (ip : Inode) where
  shorts : ℕ → ℕ
  shorts =
      store16
        (store16 (store16 (store16 bytes (32 * d) ip.type) (32 * d + 1) ip.major) (32 * d + 2)
          ip.minor)
        (32 * d + 3) ip.nlink

  -- A short of a dinode lies before the words that are stored behind it.
  short_of : (i : ℕ) → i < 32 * d + 4 → load16 (store_dinode bytes d ip) i ≡ load16 shorts i
  unfolding store_dinode shorts
  short_of i lt =
      load16-store_addrs 13 (store32 shorts (16 * d + 2) ip.size) (16 * d + 3) ip.addrs i
        (inl (omega arith))
      ∙ load16-store32 shorts (16 * d + 2) ip.size i (λ e. absurd (omega arith))
          (λ e. absurd (omega arith))

  pub stored_dinode :
      (inum : ℕ) → IsPacked ip → SameInode (load_dinode (store_dinode bytes d ip) d inum) ip
  unfolding load_dinode shorts store_dinode
  stored_dinode inum fits = record {
    same_type =
        short_of (32 * d) (omega arith)
        ∙ load16-store16_ne _ _ _ _ (λ e. absurd (omega arith))
        ∙ load16-store16_ne _ _ _ _ (λ e. absurd (omega arith))
        ∙ load16-store16_ne _ _ _ _ (λ e. absurd (omega arith))
        ∙ load16-store16_self _ _ _ fits.type_fits;
    same_major =
        short_of (32 * d + 1) (omega arith)
        ∙ load16-store16_ne _ _ _ _ (λ e. absurd (omega arith))
        ∙ load16-store16_ne _ _ _ _ (λ e. absurd (omega arith))
        ∙ load16-store16_self _ _ _ fits.major_fits;
    same_minor =
        short_of (32 * d + 2) (omega arith)
        ∙ load16-store16_ne _ _ _ _ (λ e. absurd (omega arith))
        ∙ load16-store16_self _ _ _ fits.minor_fits;
    same_nlink = short_of (32 * d + 3) (omega arith) ∙ load16-store16_self _ _ _ fits.nlink_fits;
    same_size =
        load32-store_addrs_ne 13 (store32 shorts (16 * d + 2) ip.size) (16 * d + 3) ip.addrs
          (16 * d + 2) (inl (omega arith))
        ∙ load32-store32_self shorts (16 * d + 2) ip.size fits.size_fits;
    same_addrs = λ i lt. load32-store_addrs 13 _ (16 * d + 3) ip.addrs i lt (fits.addrs_fit i lt);
  }

  short_out :
      (i : ℕ)
      → (i < 32 * d) ⊎ (32 * d + 32 ≤ i)
      → load16 (store_dinode bytes d ip) i ≡ load16 bytes i
  unfolding store_dinode
  short_out i out =
      load16-store_addrs 13 _ (16 * d + 3) ip.addrs i (ground (arith, out))
      ∙ load16-store32 _ (16 * d + 2) ip.size i (ground (arith, out)) (ground (arith, out))
      ∙ load16-store16_ne _ (32 * d + 3) ip.nlink i (ground (arith, out))
      ∙ load16-store16_ne _ (32 * d + 2) ip.minor i (ground (arith, out))
      ∙ load16-store16_ne _ (32 * d + 1) ip.major i (ground (arith, out))
      ∙ load16-store16_ne bytes (32 * d) ip.type i (ground (arith, out))

  word_out :
      (i : ℕ)
      → (i < 16 * d) ⊎ (16 * d + 16 ≤ i)
      → load32 (store_dinode bytes d ip) i ≡ load32 bytes i
  unfolding store_dinode
  word_out i out =
      load32-store_addrs_ne 13 _ (16 * d + 3) ip.addrs i (ground (arith, out))
      ∙ load32-store32_ne _ (16 * d + 2) ip.size i (ground (arith, out))
      ∙ load32-store16 _ (32 * d + 3) ip.nlink i (ground (arith, out)) (ground (arith, out))
      ∙ load32-store16 _ (32 * d + 2) ip.minor i (ground (arith, out)) (ground (arith, out))
      ∙ load32-store16 _ (32 * d + 1) ip.major i (ground (arith, out)) (ground (arith, out))
      ∙ load32-store16 bytes (32 * d) ip.type i (ground (arith, out)) (ground (arith, out))

  -- Another dinode of the block is not touched.
  pub other_dinode :
      (d' inum : ℕ)
      → d' ≢ d
      → SameInode (load_dinode (store_dinode bytes d ip) d' inum) (load_dinode bytes d' inum)
  unfolding load_dinode
  other_dinode d' inum ne = record {
    same_type = short_out (32 * d') (ground arith);
    same_major = short_out (32 * d' + 1) (ground arith);
    same_minor = short_out (32 * d' + 2) (ground arith);
    same_nlink = short_out (32 * d' + 3) (ground arith);
    same_size = word_out (16 * d' + 2) (ground arith);
    same_addrs = λ i lt. word_out (16 * d' + 3 + i) (ground arith);
  }

-- iupdate of an inode whose fields fit the record on the disk: ilock then reads back what it wrote, it
-- reads every other inode as before, and only the block of the inode changes.
pub read_inode-iupdate :
    (ip : Inode) (fs : Fs)
    → IsPacked ip
    → SameInode (read_inode ip.inum (iupdate ip fs)) ip
      × ((i : ℕ) → i ≢ ip.inum → SameInode (read_inode i (iupdate ip fs)) (read_inode i fs))
      × ((n : ℕ) → n ≢ iblock ip.inum fs.sb → (iupdate ip fs).blocks n ≡ fs.blocks n)
unfolding read_inode iupdate
read_inode-iupdate ip fs fits = (
  rw
      (update_self fs.blocks (iblock ip.inum fs.sb)
        (store_dinode (fs.blocks (iblock ip.inum fs.sb)) (ip.inum % 16) ip))
      (stored_dinode (fs.blocks (iblock ip.inum fs.sb)) (ip.inum % 16) ip ip.inum fits),
  (λ i ne. elim (Bool-cases (iblock ip.inum fs.sb == iblock i fs.sb)) [
    | inl same ↦
        let place : i / 16 ≡ ip.inum / 16 = ground arith in
        rw (same, place)
          (other_dinode (fs.blocks (iblock ip.inum fs.sb)) (ip.inum % 16) ip (i % 16) i
            (λ e. ne (omega arith)))
    | inr differs ↦ rw differs (same_inode (read_inode i fs))
  ]),
  (λ n ne. update_ne fs.blocks (iblock ip.inum fs.sb) _ n (λ e. ne (sym e))),
)
