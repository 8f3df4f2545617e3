-- ===== src/Fs/Chunk.antt =====
-- A chunk that writei of w3/kernel/fs.c puts into a block.
use os_t.Prelude.{
  ℕ, ◌+◌, ◌-◌, ◌/◌, ◌%◌, ◌≤◌, ◌<◌, ◌≡◌, ◌≢◌, refl, sym, ap, subst, ◌∙◌, inl, inr, false, ◌&&◌, ◌==◌,
  ltb, leb, Bool-cases, arith,
}
use os_t.Fs.{Fs, Inode}
use os_t.Fs.Map.{maxfile, block_of, IsFile}
use os_t.Fs.Slot.{Mapped}
use os_t.Fs.Io.{bsize, copied, with_chunk}
use os_t.Fs.Store.{stored-IsFile, stored_content}
use os_t.Fs.Bytes.{byte_at, block_byte}
use os_t.Fs.Apart.{IsApart, Mapped-IsApart, stored-IsApart}

-- A range within a block, by its offsets in the file and in the block.
same_range :
    (off m o : ℕ)
    → o / 1024 ≡ off / 1024
    → (leb (off % 1024) (o % 1024) && ltb (o % 1024) (off % 1024 + m))
      ≡ (leb off o && ltb o (off + m))
same_range off m o block = ground arith

other_block :
    (off m o : ℕ)
    → off % 1024 + m ≤ 1024
    → (o / 1024 == off / 1024) ≡ false
    → (leb off o && ltb o (off + m)) ≡ false
other_block off m o inside differs = ground arith

-- A chunk of a write, in a block that the file has.
module _ (ip : Inode) (fs : Fs) (off m tot : ℕ) (src : ℕ → ℕ) (ip1 : Inode) (fs1 : Fs)
    (mapped : Mapped (off / 1024) ip fs (block_of ip1 fs1 (off / 1024), ip1, fs1))
    (in_file : off / 1024 < maxfile) (there : block_of ip1 fs1 (off / 1024) ≢ 0)
    (inside : off % 1024 + m ≤ 1024) where
  abbrev pub behind : Fs
  behind = with_chunk (block_of ip1 fs1 (off / 1024)) m tot src off fs1

  abbrev chunk : ℕ → ℕ
  chunk = copied (fs1.blocks (block_of ip1 fs1 (off / 1024))) (off % bsize) m (λ i. src (tot + i))

  pub behind-IsFile : IsFile ip1 behind
  behind-IsFile = stored-IsFile ip1 fs1 (off / 1024) chunk mapped.file in_file there

  pub behind-IsApart : (n : ℕ) → IsApart n ip fs → IsApart n ip1 behind
  behind-IsApart n a =
      stored-IsApart n ip1 fs1 (off / 1024) chunk mapped.file in_file there
        (Mapped-IsApart (off / 1024) n ip fs (block_of ip1 fs1 (off / 1024), ip1, fs1) mapped a)

  old_byte :
      (o : ℕ)
      → o / 1024 ≡ off / 1024
      → fs1.blocks (block_of ip1 fs1 (off / 1024)) (o % 1024) ≡ byte_at ip fs o
  old_byte o block =
      ap (fs1.blocks (block_of ip1 fs1 (off / 1024))) (omega arith)
      ∙ block_byte o 0 (block_of ip1 fs1 (off / 1024)) ip fs
          (block_of ip1 fs1 (off / 1024), ip1, fs1)
          (subst (λ k. Mapped k ip fs (block_of ip1 fs1 (off / 1024), ip1, fs1)) (sym block) mapped)
          (omega arith) there (omega arith)
      ∙ ap (byte_at ip fs) (omega arith)

  -- The bytes of the block itself.
  chunk_here :
      (o : ℕ)
      → o / 1024 ≡ off / 1024
      → chunk (o % 1024) ≡ copied (byte_at ip fs) off m (λ i. src (tot + i)) o
  chunk_here o block = elim (Bool-cases (leb off o && ltb o (off + m))) [
    | inl new ↦
        let place : o % 1024 - off % 1024 ≡ o - off = omega arith in
        rw (same_range off m o block, new, place) refl
    | inr old ↦ rw (same_range off m o block, old) (old_byte o block)
  ]

  pub behind_byte :
      (o : ℕ)
      → o < 274432
      → byte_at ip1 behind o ≡ copied (byte_at ip fs) off m (λ i. src (tot + i)) o
  unfolding byte_at
  behind_byte o lt =
      stored_content ip1 fs1 (off / 1024) chunk mapped.file in_file there (o / 1024) (o % 1024)
        (omega arith)
      ∙ elim (Bool-cases (o / 1024 == off / 1024)) [
        | inl same ↦ rw same (chunk_here o (ground arith))
        | inr differs ↦
            let out : (leb off o && ltb o (off + m)) ≡ false = other_block off m o inside differs in
            rw (differs, out) (mapped.same (o / 1024) (o % 1024) (omega arith))
      ]
