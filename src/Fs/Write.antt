-- ===== src/Fs/Write.antt =====
-- writei of w3/kernel/fs.c writes the bytes of a file.
use os_t.Prelude.{
  ℕ, ◌+◌, ◌-◌, ◌*◌, ◌%◌, ◌≤◌, ◌<◌, ◌≡◌, sym, ap, ap₂, subst, ◌∙◌, ◌⊎◌, inl, inr, true, false, ◌&&◌,
  Option, none, some, if◌then◌else◌, ◌==◌, ltb, leb, Bool-cases, arith,
}
use os_t.Prelude.Run.{Run, ok}
use os_t.Fs.{Superblock, Fs, Inode}
use os_t.Fs.Bitmap.{used}
use os_t.Fs.Map.{IsFile}
use os_t.Fs.Slot.{slot_place, slot_hole}
use os_t.Fs.Dinode.{iblock, iupdate, read_inode, IsPacked, SameInode, read_inode-iupdate}
use os_t.Fs.Io.{bsize, uint_range, copied, Written, grow_size, writei}
use os_t.Fs.Bytes.{byte_at, leb→le, wraps_below}
use os_t.Fs.Apart.{IsApart, iupdate-IsFile, iupdate_used, iupdate-IsApart, iupdate_byte}
use os_t.Fs.WriteLoop.{Writes, write_loop-Writes}

-- What is on the disk once writei has done the first `tot` of `n` bytes: the file, with these bytes, and
-- its inode, which still lies apart from it.
pub record Wrote (fails : ℕ → Option ℕ) (off n : ℕ) (src : ℕ → ℕ) (ip : Inode) (fs : Fs) (tot : ℕ)
    (ip' : Inode) (fs' : Fs) : Type 0 where
  pub most : tot ≤ n
  pub file : IsFile ip' fs'
  pub same_sb : fs'.sb ≡ fs.sb
  pub apart : IsApart (iblock ip.inum fs.sb) ip' fs'
  pub size : ip'.size ≡ (if ltb ip.size (off + tot) then off + tot else ip.size)
  pub only_size : ip' ≡ record ip { size = ip'.size; addrs = ip'.addrs }
  pub bytes :
      (o : ℕ)
      → o < 274432
      → (o < off + tot) ⊎ (off + n ≤ o)
      → byte_at ip' fs' o ≡ copied (byte_at ip fs) off tot src o
  pub short :
      tot < n → ((c : ℕ) → c < fs.sb.size → used fs' c ≡ true) ⊎ ((k : ℕ) × (fails tot ≡ some k))
  pub inode : SameInode (read_inode ip.inum fs') ip'

-- What writei does: it refuses an offset behind the end of the file, or a range past the largest file; or
-- it writes.
pub data WriteI (fails : ℕ → Option ℕ) (off n : ℕ) (src : ℕ → ℕ) (ip : Inode) (fs : Fs)
    : Run (Option ℕ × Inode × Fs) → Type 0 where
  refused : (ip.size < off) ⊎ (274432 < off + n) → WriteI fails off n src ip fs (ok (none, ip, fs))
  written :
      (tot : ℕ) (ip' : Inode) (fs' : Fs)
      → off ≤ ip.size
      → off + n ≤ 274432
      → Wrote fails off n src ip fs tot ip' fs'
      → WriteI fails off n src ip fs (ok (some tot, ip', fs'))

resized-IsFile :
    (ip : Inode) (fs : Fs) (size : ℕ) → IsFile ip fs → IsFile (record ip { size = size }) fs
resized-IsFile ip fs size file = record {
  disk = file.disk;
  inside = file.inside;
  distinct = file.distinct;
}

resized-IsApart :
    (n : ℕ) (ip : Inode) (fs : Fs) (size : ℕ)
    → IsApart n ip fs
    → IsApart n (record ip { size = size }) fs
resized-IsApart n ip fs size a = record { is_data = a.is_data; outside = a.outside }

-- The addresses of a file fit the record on the disk.
addr_fits : (ip : Inode) (fs : Fs) (i : ℕ) → IsFile ip fs → i < 13 → ip.addrs i < 4294967296
addr_fits ip fs i file lt = elim (Bool-cases (ip.addrs i == 0)) [
  | inl z ↦ ground arith
  | inr z ↦
      let at = slot_hole i ip fs (omega arith) in
      let d = file.inside (slot_place i) (ground arith) (λ e. absurd (ground arith)) in
      let below = d.below in let roomy = file.disk.roomy in omega arith
]

grown_size : (a b : ℕ) → a ≤ 274432 → b ≤ 274432 → (if ltb a b then b else a) < 4294967296
grown_size a b la lb = ground arith

module _ (fails : ℕ → Option ℕ) (off n : ℕ) (src : ℕ → ℕ) (ip : Inode) (fs : Fs) (w : Written)
    (small : ip.size ≤ 274432) (packed : IsPacked ip) (apart : IsApart (iblock ip.inum fs.sb) ip fs)
    (fits : off + n ≤ 274432) (r : Writes fails ip fs off 0 n src w) where
  first_bytes :
      (o : ℕ)
      → o < 274432
      → (o < off + w.tot) ⊎ (off + n ≤ o)
      → byte_at w.ip w.fs o ≡ copied (byte_at ip fs) off w.tot src o
  first_bytes o lt out =
      let all : w.tot - 0 ≡ w.tot = omega arith in
      r.bytes o lt (elim out [ inl a ↦ inl (omega arith) | inr b ↦ inr (omega arith) ])
      ∙ ap (λ k. copied (byte_at ip fs) off k (λ i. src (0 + i)) o) all
      ∙ ap (λ x. if leb off o && ltb o (off + w.tot) then x else byte_at ip fs o)
          (ap src (omega arith))

  -- The end of writei, for the size that it gives the file.
  stored_inode :
      (size : ℕ)
      → size ≡ (if ltb ip.size (off + w.tot) then off + w.tot else ip.size)
      → Wrote fails off n src ip fs w.tot
          (record w.ip { size = size })
          (iupdate (record w.ip { size = size }) w.fs)
  unfolding byte_at iupdate
  stored_inode size e = record {
    most = r.most;
    file = iupdate-IsFile ip1 w.fs file1 apart1;
    same_sb = r.same_sb;
    apart =
        subst (λ b. IsApart b ip1 (iupdate ip1 w.fs)) place (iupdate-IsApart ip1 w.fs file1 apart1);
    size = e;
    only_size = only;
    bytes = λ o lt out. iupdate_byte ip1 w.fs file1 apart1 o lt ∙ first_bytes o lt out;
    short = λ lt. elim (r.short lt) [
      | inl full ↦ inl (λ c below.
          let below' = subst (λ (x : Superblock). c < x.size) (sym r.same_sb) below in
          iupdate_used ip1 w.fs file1 apart1 c below' ∙ full c below)
      | inr failed ↦ inr failed
    ];
    inode =
        subst (λ i. SameInode (read_inode i (iupdate ip1 w.fs)) ip1) inum
          (read_inode-iupdate ip1 w.fs packed1).0;
  }
    where
      ip1 : Inode
      ip1 = record w.ip { size = size }

      only : ip1 ≡ record ip { size = size; addrs = w.ip.addrs }
      only = ap (λ (x : Inode). record x { size = size }) r.only_addrs

      inum : ip1.inum ≡ ip.inum
      inum = ap (λ (x : Inode). x.inum) r.only_addrs

      place : iblock ip1.inum w.fs.sb ≡ iblock ip.inum fs.sb
      place = ap₂ iblock inum r.same_sb

      file1 : IsFile ip1 w.fs
      file1 = resized-IsFile w.ip w.fs size r.file

      apart1 : IsApart (iblock ip1.inum w.fs.sb) ip1 w.fs
      apart1 =
          subst (λ b. IsApart b ip1 w.fs) (sym place)
            (resized-IsApart (iblock ip.inum fs.sb) w.ip w.fs size
              (r.apart (iblock ip.inum fs.sb) apart))

      packed1 : IsPacked ip1
      packed1 = record {
        type_fits =
            subst (λ x. x < 65536) (sym (ap (λ (x : Inode). x.type) r.only_addrs)) packed.type_fits;
        major_fits =
            subst (λ x. x < 65536) (sym (ap (λ (x : Inode). x.major) r.only_addrs))
              packed.major_fits;
        minor_fits =
            subst (λ x. x < 65536) (sym (ap (λ (x : Inode). x.minor) r.only_addrs))
              packed.minor_fits;
        nlink_fits =
            subst (λ x. x < 65536) (sym (ap (λ (x : Inode). x.nlink) r.only_addrs))
              packed.nlink_fits;
        size_fits =
            subst (λ x. x < 4294967296) (sym e)
              (grown_size ip.size (off + w.tot) small (let m = r.most in omega arith));
        addrs_fit = λ i. addr_fits ip1 w.fs i file1;
      }

  finish :
      off ≤ ip.size
      → WriteI fails off n src ip fs (ok (some w.tot, (grow_size w).ip, (grow_size w).fs))
  unfolding grow_size
  finish before =
      let end : w.off ≡ off + w.tot = r.place ∙ omega arith in
      let same = r.same_size in
      elim (Bool-cases (ltb w.ip.size w.off)) [
        | inl longer ↦
            let test : ltb ip.size (off + w.tot) ≡ true = ground arith in
            rw longer (written w.tot _ _ before fits (stored_inode w.off (rw test end)))
        | inr within ↦
            let test : ltb ip.size (off + w.tot) ≡ false = ground arith in
            rw within (written w.tot _ _ before fits (stored_inode w.ip.size (rw test same)))
      ]

-- writei of a file whose inode fits its record on the disk and lies in a block that is in use, not in the
-- bitmap and not of the file. It returns -1, with no change, exactly for an offset behind the end of the
-- file or a range past the largest file. Otherwise, on the disk that it leaves, there is the file, with the
-- first bytes of the range written, as many as it returns, and with the bytes that it had in front of the
-- range and behind it; these are fewer than were asked for only where every block of the disk is in use or
-- a copy fails. The file grows to the end of what is written, and ilock reads its inode back.
pub writei-WriteI :
    (fails : ℕ → Option ℕ) (off n : ℕ) (src : ℕ → ℕ) (ip : Inode) (fs : Fs)
    → IsFile ip fs
    → IsApart (iblock ip.inum fs.sb) ip fs
    → IsPacked ip
    → ip.size ≤ 274432
    → off < 4294967296
    → n < 4294967296
    → WriteI fails off n src ip fs (writei fails off n src ip fs)
unfolding writei
writei-WriteI fails off n src ip fs file apart packed small off_fits n_fits =
    elim (Bool-cases (ltb ip.size off)) [
      | inl behind ↦ rw behind (refused (inl (ground arith)))
      | inr before ↦ elim (Bool-cases (leb (off + n) 4294967295)) [
        | inr wraps ↦
            let a : ltb ((off + n) % uint_range) off ≡ true =
              wraps_below off n (ground arith) off_fits n_fits in
            rw (before, a) (refused (inr (ground arith)))
        | inl fits ↦
            let sum : (off + n) % uint_range ≡ off + n =
              omega (arith, leb→le (off + n) 4294967295 fits) in
            let in_order : ltb (off + n) off ≡ false = ground arith in
            elim (Bool-cases (ltb (268 * bsize) (off + n))) [
              | inl past ↦ rw (sum, before, in_order, past) (refused (inr (ground arith)))
              | inr inside ↦
                  let (w, runs, r) =
                    write_loop-Writes n fails 0 n off src ip fs file (omega arith) (omega arith)
                      (ground arith) in
                  rw (sum, before, in_order, inside, runs)
                    (finish fails off n src ip fs w small packed apart (ground arith) r
                      (ground arith))
            ]
      ]
    ]
