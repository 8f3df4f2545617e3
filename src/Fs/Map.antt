-- ===== src/Fs/Map.antt =====
-- The blocks of a file of w3/kernel/fs.c, and what bmap does to them.
use os_t.Prelude.{
  ℕ, ◌-◌, ◌%◌, ◌≤◌, ◌<◌, ◌≡◌, refl, sym, subst, ap, ◌∙◌, ◌≢◌, inl, inr, true, false, if◌then◌else◌,
  ltb, ◌==◌, Bool-cases, update_ne, arith,
}
use os_t.Fs.{bpb, ndirect, bblock, Fs, set_block, in_use, mark, bzero, load32, Inode}
use os_t.Fs.Bitmap.{used, used-mark}

-- MAXFILE, and the place of the indirect block among the blocks of a file.
abbrev pub maxfile : ℕ
maxfile = 268

-- The block `k` of a file, 0 for none; the last one is the indirect block.
abbrev pub block_of : Inode → Fs → ℕ → ℕ
block_of ip fs k =
    if k == maxfile
    then ip.addrs ndirect
    else if ltb k ndirect
    then ip.addrs k
    else if ip.addrs ndirect == 0
    then 0
    else load32 (fs.blocks (ip.addrs ndirect)) (k - ndirect)

abbrev pub bytes_at : Fs → ℕ → ℕ → ℕ
bytes_at fs a i = if a == 0 then 0 else fs.blocks a i

-- The bytes of block `k` of a file; where it has none, zeros.
abbrev pub content : Inode → Fs → ℕ → ℕ → ℕ
content ip fs k = bytes_at fs (block_of ip fs k)

-- The blocks of the bitmap, and block 0, are in use.
pub record IsDisk (fs : Fs) : Type 0 where
  pub roomy : fs.sb.size ≤ 4294967296
  pub boot : used fs 0 ≡ true
  pub meta_in : (c : ℕ) → c < fs.sb.size → bblock c fs.sb < fs.sb.size
  pub meta : (c : ℕ) → c < fs.sb.size → used fs (bblock c fs.sb) ≡ true

-- A block that may hold data: it is in use and no block of the bitmap.
pub record IsData (fs : Fs) (a : ℕ) : Type 0 where
  pub below : a < fs.sb.size
  pub taken : used fs a ≡ true
  pub no_meta : (c : ℕ) → c < fs.sb.size → a ≢ bblock c fs.sb

-- No block is twice in a file.
pub record IsFile (ip : Inode) (fs : Fs) : Type 0 where
  pub disk : IsDisk fs
  pub inside : (k : ℕ) → k ≤ maxfile → block_of ip fs k ≢ 0 → IsData fs (block_of ip fs k)
  pub distinct :
      (k l : ℕ)
      → k ≤ maxfile
      → l ≤ maxfile
      → k ≢ l
      → block_of ip fs k ≢ 0
      → block_of ip fs k ≢ block_of ip fs l

abbrev pub with_blocks : Fs → (ℕ → ℕ → ℕ) → Fs
with_blocks fs v = record fs { blocks = v }

-- What a new block changes.
pub record Grown (b : ℕ) (fs : Fs) (v : ℕ → ℕ → ℕ) : Type 0 where
  pub nonzero : b ≢ 0
  pub is_data : IsData (with_blocks fs v) b
  pub was_free : used fs b ≡ false
  pub others : (c : ℕ) → c < fs.sb.size → c ≢ b → used (with_blocks fs v) c ≡ used fs c
  pub zeroed : v b ≡ (λ i. 0)
  pub kept : (n : ℕ) → n ≢ b → ((c : ℕ) → c < fs.sb.size → n ≢ bblock c fs.sb) → v n ≡ fs.blocks n

pub ne_of_used : (fs : Fs) (a b : ℕ) → used fs a ≡ true → used fs b ≡ false → a ≢ b
ne_of_used fs a b t f e = absurd (let q = sym t ∙ ap (used fs) e ∙ f in ground arith)

pub fresh-Grown :
    (b : ℕ) (fs : Fs)
    → IsDisk fs
    → b < fs.sb.size
    → used fs b ≡ false
    → Grown b fs
        (bzero b
          (set_block (bblock b fs.sb) (mark (fs.blocks (bblock b fs.sb)) (b % bpb)) fs)).blocks
unfolding bzero
fresh-Grown b fs d lt f = record {
  nonzero = λ e. ne_of_used fs 0 b d.boot f (sym e);
  is_data = record {
    below = lt;
    taken = marks b lt ∙ ground arith;
    no_meta = λ c lc e. ne_of_used fs (bblock c fs.sb) b (d.meta c lc) f (sym e);
  };
  was_free = f;
  others = λ c lc ne. marks c lc ∙ ground arith;
  zeroed = ground arith;
  kept = λ n ne no.
      update_ne fs1.blocks b (λ i. 0) n (λ e. ne (sym e))
      ∙ update_ne fs.blocks (bblock b fs.sb) (mark (fs.blocks (bblock b fs.sb)) (b % bpb)) n
          (λ e. no b lt (sym e));
}
  where
    fs1 : Fs
    fs1 = set_block (bblock b fs.sb) (mark (fs.blocks (bblock b fs.sb)) (b % bpb)) fs

    marks :
        (c : ℕ)
        → c < fs.sb.size
        → used (set_block b (λ i. 0) fs1) c ≡ (if c == b then true else used fs c)
    marks c lc =
        let ne : b ≢ bblock c fs.sb =
          λ e. ne_of_used fs (bblock c fs.sb) b (d.meta c lc) f (sym e) in
        let same : (set_block b (λ i. 0) fs1).blocks (bblock c fs.sb)
            ≡ fs1.blocks (bblock c fs.sb) =
          update_ne fs1.blocks b (λ i. 0) (bblock c fs.sb) ne in
        ap (λ (x : ℕ → ℕ). in_use x (c % bpb)) same ∙ used-mark b c fs

-- A file in which the hole `i` is filled by a new block `b`; besides, the indirect block may change.
bytes_at_zero : (fs : Fs) (a j : ℕ) → fs.blocks a j ≡ 0 → bytes_at fs a j ≡ 0
bytes_at_zero fs a j z = ground arith

bytes_at_same :
    (fs fs' : Fs) (a j : ℕ)
    → (a ≢ 0 → fs.blocks a ≡ fs'.blocks a)
    → bytes_at fs a j ≡ bytes_at fs' a j
bytes_at_same fs fs' a j same = elim (Bool-cases (a == 0)) [
  | inl z ↦ rw z refl
  | inr z ↦ rw z (ap (λ x. x j) (same (λ e. absurd (ground arith))))
]

module _ (ip ip' : Inode) (fs : Fs) (v w : ℕ → ℕ → ℕ) (i b : ℕ) (file : IsFile ip fs)
    (g : Grown b fs v) (li : i ≤ maxfile) (hole : block_of ip fs i ≡ 0)
    (places : (k : ℕ)
      → k ≤ maxfile
      → block_of ip' (with_blocks fs w) k ≡ (if k == i then b else block_of ip fs k))
    (rest : (n : ℕ)
      → (block_of ip' (with_blocks fs w) maxfile ≢ 0 → n ≢ block_of ip' (with_blocks fs w) maxfile)
      → w n ≡ v n) where
  Old-data : (k : ℕ) → k ≤ maxfile → k ≢ i → block_of ip' (with_blocks fs w) k ≡ block_of ip fs k
  Old-data k lk ne = places k lk ∙ ground arith

  new_place : block_of ip' (with_blocks fs w) i ≡ b
  new_place = places i li ∙ ground arith

  no_meta' :
      (k c : ℕ)
      → k ≤ maxfile
      → c < fs.sb.size
      → block_of ip' (with_blocks fs w) k ≢ 0
      → bblock c fs.sb ≢ block_of ip' (with_blocks fs w) k
  no_meta' k c lk lc nz e = elim (Bool-cases (k == i)) [
    | inl y ↦ g.is_data.no_meta c lc (sym (e ∙ places k lk ∙ rw y refl))
    | inr y ↦
        let same = places k lk ∙ rw y refl in
        (file.inside k lk (λ z. nz (same ∙ z))).no_meta c lc (sym (e ∙ same))
  ]

  used' : (c : ℕ) → c < fs.sb.size → used (with_blocks fs w) c ≡ used (with_blocks fs v) c
  used' c lc =
      ap (λ (x : ℕ → ℕ). in_use x (c % bpb))
        (rest (bblock c fs.sb) (no_meta' maxfile c (omega arith) lc))

  pub used_before : (c : ℕ) → c < fs.sb.size → used fs c ≡ true → used (with_blocks fs w) c ≡ true
  used_before c lc t = used' c lc ∙ g.others c lc (ne_of_used fs c b t g.was_free) ∙ t

  new-IsData : IsData (with_blocks fs w) b
  new-IsData = record {
    below = g.is_data.below;
    taken = used' b g.is_data.below ∙ g.is_data.taken;
    no_meta = g.is_data.no_meta;
  }

  old-IsData :
      (k : ℕ) → k ≤ maxfile → block_of ip fs k ≢ 0 → IsData (with_blocks fs w) (block_of ip fs k)
  old-IsData k lk nz =
      let d = file.inside k lk nz in
      record {
        below = d.below;
        taken = used_before (block_of ip fs k) d.below d.taken;
        no_meta = d.no_meta;
      }

  -- The new block is none of the old ones.
  new_ne_old : (k : ℕ) → k ≤ maxfile → b ≢ block_of ip fs k
  new_ne_old k lk e =
      let d = file.inside k lk (λ z. g.nonzero (e ∙ z)) in
      ne_of_used fs (block_of ip fs k) b d.taken g.was_free (sym e)

  pub grow_disk : IsDisk (with_blocks fs w)
  grow_disk = record {
    roomy = file.disk.roomy;
    boot = (let lt = g.is_data.below in used_before 0 (omega arith) file.disk.boot);
    meta_in = file.disk.meta_in;
    meta = λ c lc. used_before (bblock c fs.sb) (file.disk.meta_in c lc) (file.disk.meta c lc);
  }

  pub grow-IsFile : IsFile ip' (with_blocks fs w)
  grow-IsFile = record {
    disk = grow_disk;
    inside = λ k lk nz. elim (Bool-cases (k == i)) [
      | inl y ↦ subst (IsData (with_blocks fs w)) (sym (places k lk ∙ rw y refl)) new-IsData
      | inr y ↦
          let same : block_of ip' (with_blocks fs w) k ≡ block_of ip fs k =
            places k lk ∙ rw y refl in
          subst (IsData (with_blocks fs w)) (sym same) (old-IsData k lk (λ z. nz (same ∙ z)))
    ];
    distinct = λ k l lk ll ne nz. elim (Bool-cases (k == i)) [
      | inl y ↦ elim (Bool-cases (l == i)) [
        | inl z ↦ absurd (ne (ground arith))
        | inr z ↦ λ e. new_ne_old l ll (sym (places k lk ∙ rw y refl) ∙ e ∙ places l ll ∙ rw z refl)
      ]
      | inr y ↦ elim (Bool-cases (l == i)) [
        | inl z ↦
            λ e. new_ne_old k lk (sym (sym (places k lk ∙ rw y refl) ∙ e ∙ places l ll ∙ rw z refl))
        | inr z ↦ λ e.
            let same : block_of ip' (with_blocks fs w) k ≡ block_of ip fs k =
              places k lk ∙ rw y refl in
            file.distinct k l lk ll ne (λ q. nz (same ∙ q)) (sym same ∙ e ∙ places l ll ∙ rw z refl)
      ]
    ];
  }

  -- No byte of the file changes.
  pub grow_content :
      (k j : ℕ) → k < maxfile → content ip' (with_blocks fs w) k j ≡ content ip fs k j
  grow_content k j lk = elim (Bool-cases (k == i)) [
    | inl y ↦
        let same : i ≡ k = ground arith in
        let now : block_of ip' (with_blocks fs w) k ≡ b = places k (omega arith) ∙ rw y refl in
        let was : block_of ip fs k ≡ 0 = ap (block_of ip fs) (sym same) ∙ hole in
        let far : block_of ip' (with_blocks fs w) maxfile ≡ block_of ip fs maxfile =
          Old-data maxfile (omega arith) (λ q. omega arith) in
        let zeros : w b ≡ (λ x. 0) =
          rest b (λ z e. new_ne_old maxfile (omega arith) (e ∙ far)) ∙ g.zeroed in
        let zero : w b j ≡ 0 = ap (λ x. x j) zeros in
        ap (λ a. bytes_at (with_blocks fs w) a j) now
        ∙ bytes_at_zero (with_blocks fs w) b j zero
        ∙ sym (ap (λ a. bytes_at fs a j) was)
    | inr y ↦
        let same : block_of ip' (with_blocks fs w) k ≡ block_of ip fs k =
          places k (omega arith) ∙ rw y refl in
        ap (λ a. bytes_at (with_blocks fs w) a j) same
        ∙ bytes_at_same (with_blocks fs w) fs (block_of ip fs k) j (λ nz.
          let d = file.inside k (omega arith) nz in
          rest (block_of ip fs k) (λ q e.
            grow-IsFile.distinct k maxfile (omega arith) (omega arith) (λ h. omega arith)
              (λ h. nz (sym same ∙ h)) (same ∙ e))
          ∙ g.kept (block_of ip fs k) (λ e. new_ne_old k (omega arith) (sym e)) d.no_meta)
  ]
