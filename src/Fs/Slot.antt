-- ===== src/Fs/Slot.antt =====
-- The slots of an inode of w3/kernel/fs.c, as bmap fills them.
use os_t.Prelude.{
  ℕ, ◌-◌, ◌%◌, ◌≤◌, ◌<◌, ◌≡◌, refl, sym, subst, ap, ◌∙◌, ◌≢◌, ◌⊎◌, inl, inr, true, false,
  if◌then◌else◌, ◌==◌, Bool-cases, update, arith,
}
use os_t.Fs.{bpb, ndirect, bblock, Fs, set_block, mark, bzero, load32, Inode}
use os_t.Fs.Bitmap.{used}
use os_t.Fs.Words.{load32_zero}
use os_t.Fs.Alloc.{Allocated, out_of_blocks, fresh}
use os_t.Fs.Map.{
  maxfile, ne_of_used, block_of, content, IsFile, with_blocks, Grown, fresh-Grown, grow-IsFile,
  grow_content, used_before,
}

-- What bmap returns for block `bn` of a file, and leaves.
pub record Mapped (bn : ℕ) (ip : Inode) (fs : Fs) (out : ℕ × Inode × Fs) : Type 0 where
  pub file : IsFile (out.1) (out.2)
  pub here : block_of (out.1) (out.2) bn ≡ out.0
  pub same : (k j : ℕ) → k < maxfile → content (out.1) (out.2) k j ≡ content ip fs k j
  pub full : out.0 ≡ 0 → (c : ℕ) → c < fs.sb.size → used (out.2) c ≡ true
  pub same_sb : out.2.sb ≡ fs.sb
  pub same_size : out.1.size ≡ ip.size
  pub only_addrs : out.1 ≡ record ip { addrs = out.1.addrs }
  pub places :
      (k : ℕ)
      → k ≤ maxfile
      → (block_of (out.1) (out.2) k ≡ block_of ip fs k)
        ⊎ ((block_of ip fs k ≡ 0) × (used fs (block_of (out.1) (out.2) k) ≡ false))
  pub taken : (c : ℕ) → c < fs.sb.size → used fs c ≡ true → used (out.2) c ≡ true

-- What is a hole of the file behind bmap was one before.
pub was_hole :
    (bn k : ℕ) (ip : Inode) (fs : Fs) (out : ℕ × Inode × Fs)
    → Mapped bn ip fs out
    → k ≤ maxfile
    → block_of (out.1) (out.2) k ≡ 0
    → block_of ip fs k ≡ 0
was_hole bn k ip fs out m lk z = elim (m.places k lk) [ inl e ↦ sym e ∙ z | inr (hole, f) ↦ hole ]

-- A block that the file has.
pub unchanged :
    (bn a : ℕ) (ip : Inode) (fs : Fs)
    → IsFile ip fs
    → block_of ip fs bn ≡ a
    → a ≢ 0
    → Mapped bn ip fs (a, ip, fs)
unchanged bn a ip fs file here nz = record {
  file = file;
  here = here;
  same = λ k j lk. refl;
  full = λ z. absurd (nz z);
  same_sb = refl;
  same_size = refl;
  only_addrs = refl;
  places = λ k lk. inl refl;
  taken = λ c lc t. t;
}

pub no_room :
    (bn : ℕ) (ip : Inode) (fs : Fs)
    → IsFile ip fs
    → block_of ip fs bn ≡ 0
    → ((c : ℕ) → c < fs.sb.size → used fs c ≡ true)
    → Mapped bn ip fs (0, ip, fs)
no_room bn ip fs file here all = record {
  file = file;
  here = here;
  same = λ k j lk. refl;
  full = λ z. all;
  same_sb = refl;
  same_size = refl;
  only_addrs = refl;
  places = λ k lk. inl refl;
  taken = λ c lc t. t;
}

-- A hole that is filled.
module _ (ip ip' : Inode) (fs : Fs) (v w : ℕ → ℕ → ℕ) (i b : ℕ) (file : IsFile ip fs)
    (g : Grown b fs v) (li : i ≤ maxfile) (hole : block_of ip fs i ≡ 0)
    (places : (k : ℕ)
      → k ≤ maxfile
      → block_of ip' (with_blocks fs w) k ≡ (if k == i then b else block_of ip fs k))
    (rest : (n : ℕ)
      → (block_of ip' (with_blocks fs w) maxfile ≢ 0 → n ≢ block_of ip' (with_blocks fs w) maxfile)
      → w n ≡ v n)
    (same_size : ip'.size ≡ ip.size) (only_addrs : ip' ≡ record ip { addrs = ip'.addrs }) where
  pub grown-Mapped : Mapped i ip fs (b, ip', with_blocks fs w)
  grown-Mapped = record {
    file = grow-IsFile ip ip' fs v w i b file g li hole places rest;
    here = places i li ∙ ground arith;
    same = λ k j lk. grow_content ip ip' fs v w i b file g li hole places rest k j lk;
    full = λ z. absurd (g.nonzero z);
    same_sb = refl;
    same_size = same_size;
    only_addrs = only_addrs;
    places = λ k lk. elim (Bool-cases (k == i)) [
      | inl y ↦
          let at : i ≡ k = ground arith in
          inr (
            ap (block_of ip fs) (sym at) ∙ hole,
            subst (λ x. used fs x ≡ false) (sym (places k lk ∙ rw y refl)) g.was_free,
          )
      | inr y ↦ inl (places k lk ∙ rw y refl)
    ];
    taken = used_before ip ip' fs v w i b file g li hole places rest;
  }

-- The place of slot `i` of an inode.
abbrev pub slot_place : ℕ → ℕ
slot_place i = if i == ndirect then maxfile else i

unfoldable pub slot_with : ℕ → Inode → Fs → ℕ × Fs → ℕ × Inode × Fs
slot_with i ip fs r =
    if ip.addrs i == 0
    then if r.0 == 0
      then (0, ip, r.1)
      else (r.0, record ip { addrs = update ip.addrs i (r.0) }, r.1)
    else (ip.addrs i, ip, fs)

pub slot_hole :
    (i : ℕ) (ip : Inode) (fs : Fs) → i ≤ ndirect → block_of ip fs (slot_place i) ≡ ip.addrs i
slot_hole i ip fs le = ground arith

-- The indirect block stays as it is where a direct one is new.
pub kept_indirect :
    (b : ℕ) (ip : Inode) (fs : Fs) (v : ℕ → ℕ → ℕ)
    → IsFile ip fs
    → ip.addrs ndirect ≢ 0
    → Grown b fs v
    → v (ip.addrs ndirect) ≡ fs.blocks (ip.addrs ndirect)
kept_indirect b ip fs v file nz g =
    let d = file.inside maxfile (omega arith) nz in
    g.kept (ip.addrs ndirect) (ne_of_used fs (ip.addrs ndirect) b d.taken g.was_free) d.no_meta

end_places :
    (b : ℕ) (ip : Inode) (fs : Fs) (v : ℕ → ℕ → ℕ) (k : ℕ)
    → v b ≡ (λ j. 0)
    → ip.addrs ndirect ≡ 0
    → block_of (record ip { addrs = update ip.addrs ndirect b }) (with_blocks fs v) k
      ≡ (if k == maxfile then b else block_of ip fs k)
end_places b ip fs v k zeros z =
    let none_there : load32 (v b) (k - ndirect) ≡ 0 =
      ap (λ x. load32 x (k - ndirect)) zeros ∙ load32_zero (k - ndirect) in
    ground (arith, none_there)

slot_places :
    (i b : ℕ) (ip : Inode) (fs : Fs) (v : ℕ → ℕ → ℕ)
    → IsFile ip fs
    → i ≤ ndirect
    → ip.addrs i ≡ 0
    → Grown b fs v
    → (k : ℕ) → k ≤ maxfile
    → block_of (record ip { addrs = update ip.addrs i b }) (with_blocks fs v) k
      ≡ (if k == slot_place i then b else block_of ip fs k)
slot_places i b ip fs v file le z g k lk = elim (Bool-cases (i == ndirect)) [
  | inl y ↦
      let at_end : ndirect ≡ i = ground arith in
      subst
        (λ x.
          block_of (record ip { addrs = update ip.addrs x b }) (with_blocks fs v) k
          ≡ (if k == slot_place x then b else block_of ip fs k))
        at_end (end_places b ip fs v k g.zeroed (ap ip.addrs at_end ∙ z))
  | inr y ↦ elim (Bool-cases (ip.addrs ndirect == 0)) [
    | inl h ↦ ground arith
    | inr h ↦
        let same : load32 (v (ip.addrs ndirect)) (k - ndirect)
            ≡ load32 (fs.blocks (ip.addrs ndirect)) (k - ndirect) =
          ap (λ x. load32 x (k - ndirect))
            (kept_indirect b ip fs v file (λ e. absurd (ground arith)) g) in
        ground (arith, same)
  ]
]

-- The blocks after balloc returns `b`.
abbrev pub grown : ℕ → Fs → ℕ → ℕ → ℕ
grown b fs =
    (bzero b (set_block (bblock b fs.sb) (mark (fs.blocks (bblock b fs.sb)) (b % bpb)) fs)).blocks

pub slot-Mapped :
    (i : ℕ) (ip : Inode) (fs : Fs) (r : ℕ × Fs)
    → IsFile ip fs
    → i ≤ ndirect
    → Allocated fs r
    → Mapped (slot_place i) ip fs (slot_with i ip fs r)
unfolding slot_with bzero
slot-Mapped i ip fs r file le alloc = elim (Bool-cases (ip.addrs i == 0)) [
  | inr e ↦ rw e (
      unchanged (slot_place i) (ip.addrs i) ip fs file (slot_hole i ip fs le)
        (λ z. absurd (ground arith)))
  | inl e ↦ rw e (go alloc (ground arith))
]
  where
    go :
        {q : ℕ × Fs}
        → Allocated fs q
        → ip.addrs i ≡ 0
        → Mapped (slot_place i) ip fs (
            if q.0 == 0
            then (0, ip, q.1)
            else (q.0, record ip { addrs = update ip.addrs i (q.0) }, q.1))
    go (out_of_blocks all) z = no_room (slot_place i) ip fs file (slot_hole i ip fs le ∙ z) all
    go (fresh b lt f before) z =
        let g = fresh-Grown b fs file.disk lt f in
        let nz : (b == 0) ≡ false = (let n' = g.nonzero in ground arith) in
        rw nz (
          grown-Mapped ip (record ip { addrs = update ip.addrs i b }) fs (grown b fs) (grown b fs)
            (slot_place i) b file g (ground arith) (slot_hole i ip fs le ∙ z)
            (slot_places i b ip fs (grown b fs) file le z g) (λ n h. refl) refl refl)
