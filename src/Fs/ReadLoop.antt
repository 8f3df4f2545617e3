-- ===== src/Fs/ReadLoop.antt =====
-- The loop of readi of w3/kernel/fs.c.
use os_t.Prelude.{
  ℕ, zero, suc, ◌+◌, ◌-◌, ◌/◌, ◌%◌, ◌≤◌, ◌<◌, ◌≡◌, ◌≢◌, refl, sym, ap, subst, ◌∙◌, inl, inr, true,
  false, Option, none, some, ◌==◌, ltb, min, Bool-cases, Option-cases, arith,
}
use os_t.Prelude.Run.{Run, ok}
use os_t.Fs.{Superblock, Fs, Inode}
use os_t.Fs.Bitmap.{used}
use os_t.Fs.Map.{block_of, IsFile}
use os_t.Fs.Slot.{Mapped, was_hole}
use os_t.Fs.Bmap.{bmap_lem}
use os_t.Fs.Io.{bsize, copied, Read, read_round, read_loop}
use os_t.Fs.Bytes.{byte_at, block_byte, copied_none, copied_join}

-- What is read from `tot` to `n`, at `off` in the file: all of it, or less where the next byte is in a hole
-- and no block of the disk is free; or a copy has failed.
pub data Outcome (fails : ℕ → Option ℕ) (ip : Inode) (fs : Fs) (off tot n : ℕ) (dst dst' : ℕ → ℕ)
    (fs' : Fs) : Option ℕ → Type 0 where
  finished :
      (t : ℕ)
      → tot ≤ t
      → t ≤ n
      → ((i : ℕ) → dst' i ≡ copied dst tot (t - tot) (λ j. byte_at ip fs (off + j)) i)
      → (t < n
          → (block_of ip fs ((off + (t - tot)) / 1024) ≡ 0)
            × ((c : ℕ) → c < fs.sb.size → used fs' c ≡ true))
      → Outcome fails ip fs off tot n dst dst' fs' (some t)
  no_copy : (t k : ℕ) → fails t ≡ some k → Outcome fails ip fs off tot n dst dst' fs' none

-- A read, which changes no byte of the file.
pub record Reads (fails : ℕ → Option ℕ) (ip : Inode) (fs : Fs) (off tot n : ℕ) (dst : ℕ → ℕ)
    (out : Read) : Type 0 where
  pub file : IsFile out.ip out.fs
  pub same : (o : ℕ) → o < 274432 → byte_at out.ip out.fs o ≡ byte_at ip fs o
  pub same_size : out.ip.size ≡ ip.size
  pub same_sb : out.fs.sb ≡ fs.sb
  pub outcome : Outcome fails ip fs off tot n dst out.dst out.fs out.tot

module _ (fails : ℕ → Option ℕ) (ip : Inode) (fs : Fs) (off tot n : ℕ) (dst : ℕ → ℕ)
    (file : IsFile ip fs) where
  pub nothing :
      tot ≡ n
      → Reads fails ip fs off tot n dst (record { tot = some tot; dst = dst; ip = ip; fs = fs })
  nothing e = record {
    file = file;
    same = λ o lt. refl;
    same_size = refl;
    same_sb = refl;
    outcome =
        finished tot (omega arith) (omega arith)
          (λ i. sym (copied_none dst tot tot (λ j. byte_at ip fs (off + j)) i))
          (λ lt. absurd (omega arith));
  }

  next_block : (t : ℕ) → (off + (t - t)) / 1024 ≡ off / 1024
  next_block t = omega arith

  -- What holds of the file behind a bmap.
  unmoved :
      (out : ℕ × Inode × Fs)
      → Mapped (off / 1024) ip fs out
      → (o : ℕ) → o < 274432
      → byte_at (out.1) (out.2) o ≡ byte_at ip fs o
  unfolding byte_at
  unmoved out m o lt = m.same (o / 1024) (o % 1024) (omega arith)

  disk_full :
      (out : ℕ × Inode × Fs)
      → Mapped (off / 1024) ip fs out
      → tot ≤ n
      → off < 274432
      → out.0 ≡ 0
      → Reads fails ip fs off tot n dst
          (record { tot = some tot; dst = dst; ip = out.1; fs = out.2 })
  disk_full out m le in_file z = record {
    file = m.file;
    same = unmoved out m;
    same_size = m.same_size;
    same_sb = m.same_sb;
    outcome =
        finished tot (omega arith) le
          (λ i. sym (copied_none dst tot tot (λ j. byte_at ip fs (off + j)) i))
          (λ lt. (
            ap (block_of ip fs) (next_block tot)
                ∙ was_hole (off / 1024) (off / 1024) ip fs out m (omega arith) (m.here ∙ z),
            m.full z,
          ));
  }

  copy_failed :
      (out : ℕ × Inode × Fs) (k : ℕ) (dst' : ℕ → ℕ)
      → Mapped (off / 1024) ip fs out
      → fails tot ≡ some k
      → Reads fails ip fs off tot n dst (record { tot = none; dst = dst'; ip = out.1; fs = out.2 })
  copy_failed out k dst' m e = record {
    file = m.file;
    same = unmoved out m;
    same_size = m.same_size;
    same_sb = m.same_sb;
    outcome = no_copy tot k e;
  }

  -- A chunk, and the rest of the read.
  chunk_and_rest :
      (out : ℕ × Inode × Fs) (m : ℕ) (last : Read)
      → Mapped (off / 1024) ip fs out
      → out.0 ≢ 0
      → off % 1024 + m ≤ 1024
      → tot + m ≤ n
      → off + (n - tot) ≤ 274432
      → Reads fails
          (out.1)
          (out.2)
          (off + m)
          (tot + m)
          n
          (copied dst tot m (λ i. out.2.blocks (out.0) (off % 1024 + i)))
          last
      → Reads fails ip fs off tot n dst last
  chunk_and_rest out m last mapped nz inside le fits r = record {
    file = r.file;
    same = λ o lt. r.same o lt ∙ unmoved out mapped o lt;
    same_size = r.same_size ∙ mapped.same_size;
    same_sb = r.same_sb ∙ mapped.same_sb;
    outcome = go last.tot r.outcome;
  }
    where
      go :
          (x : Option ℕ)
          → Outcome fails
              (out.1)
              (out.2)
              (off + m)
              (tot + m)
              n
              (copied dst tot m (λ i. out.2.blocks (out.0) (off % 1024 + i)))
              last.dst
              last.fs
              x
          → Outcome fails ip fs off tot n dst last.dst last.fs x
      go x (no_copy t k e) = no_copy t k e
      go x (finished t a b bytes full) =
          finished t (omega arith) b
            (λ i.
              bytes i
              ∙ copied_join dst tot m t _ _ (λ j. byte_at ip fs (off + j)) i a
                  (λ j lt. block_byte off j (out.0) ip fs out mapped (omega arith) nz (omega arith))
                  (λ j lt.
                    unmoved out mapped (off + m + j) (omega arith)
                    ∙ ap (byte_at ip fs) (omega arith)))
            (λ lt.
              let (hole, all) = full lt in
              let same : (off + (t - tot)) / 1024 ≡ (off + m + (t - (tot + m))) / 1024 =
                omega arith in
              (
                was_hole (off / 1024) ((off + (t - tot)) / 1024) ip fs out mapped (omega arith)
                    (ap (block_of (out.1) (out.2)) same ∙ hole),
                λ c below.
                    all c (subst (λ (z : Superblock). c < z.size) (sym mapped.same_sb) below),
              ))

abbrev pub Result : (ℕ → Option ℕ) → Inode → Fs → ℕ → ℕ → ℕ → (ℕ → ℕ) → Run Read → Type 0
Result fails ip fs off tot n dst r =
    (out : Read) × (r ≡ ok out) × Reads fails ip fs off tot n dst out

read_round-Reads :
    (fails : ℕ → Option ℕ) (ip : Inode) (fs : Fs) (off tot n : ℕ) (dst : ℕ → ℕ)
    (file : IsFile ip fs) (rest : ℕ → Inode → Fs → (ℕ → ℕ) → Run Read) (out : ℕ × Inode × Fs)
    → tot < n
    → off + (n - tot) ≤ 274432
    → Mapped (off / 1024) ip fs out
    → ((m : ℕ) (dst' : ℕ → ℕ)
        → 0 < m
        → tot + m ≤ n
        → Result fails (out.1) (out.2) (off + m) (tot + m) n dst' (rest m (out.1) (out.2) dst'))
    → Result fails ip fs off tot n dst (read_round fails tot n off dst rest out)
unfolding read_round
read_round-Reads fails ip fs off tot n dst file rest (addr, ip1, fs1) lt fits mapped step =
    elim (Bool-cases (addr == 0)) [
      | inl full ↦ (
        _,
        rw full refl,
        disk_full fails ip fs off tot n dst file (addr, ip1, fs1) mapped (omega arith) (omega arith)
            (ground arith),
      )
      | inr there ↦ elim (Option-cases (fails tot)) [
        | inr (k, e) ↦ (
          _,
          rw (there, e) refl,
          copy_failed fails ip fs off tot n dst file (addr, ip1, fs1) k
              (copied dst tot (min k (min (n - tot) (bsize - off % bsize)))
                (λ i. fs1.blocks addr (off % bsize + i)))
              mapped e,
        )
        | inl e ↦
            let m = min (n - tot) (bsize - off % bsize) in
            let (last, runs, r) =
              step m (copied dst tot m (λ i. fs1.blocks addr (off % bsize + i))) (omega arith)
                (omega arith) in
            (
              last,
              rw (there, e) runs,
              chunk_and_rest fails ip fs off tot n dst file (addr, ip1, fs1) m last mapped
                  (λ z. absurd (ground arith)) (omega arith) (omega arith) fits r,
            )
      ]
    ]

pub read_loop-Reads :
    (f : ℕ) (fails : ℕ → Option ℕ) (tot n off : ℕ) (ip : Inode) (fs : Fs) (dst : ℕ → ℕ)
    → IsFile ip fs
    → tot ≤ n
    → n - tot ≤ f
    → off + (n - tot) ≤ 274432
    → Result fails ip fs off tot n dst (read_loop f fails tot n off ip fs dst)
unfolding read_loop
read_loop-Reads zero fails tot n off ip fs dst file le enough fits =
    let over : ltb tot n ≡ false = ground arith in
    (_, rw over refl, nothing fails ip fs off tot n dst file (omega arith))
read_loop-Reads (suc f) fails tot n off ip fs dst file le enough fits =
    elim (Bool-cases (ltb tot n)) [
      | inr over ↦ (_, rw over refl, nothing fails ip fs off tot n dst file (ground arith))
      | inl more ↦
          let lt : tot < n = ground arith in
          let (out, runs, mapped) = bmap_lem (off / 1024) ip fs file (omega arith) in
          rw (more, runs)
            (read_round-Reads fails ip fs off tot n dst file
              (λ m. read_loop f fails (tot + m) n (off + m)) out lt fits mapped
              (λ m dst' pos le'.
                read_loop-Reads f fails (tot + m) n (off + m) (out.1) (out.2) dst' mapped.file le'
                  (omega arith) (omega arith)))
    ]
