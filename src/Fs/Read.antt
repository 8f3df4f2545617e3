-- ===== src/Fs/Read.antt =====
-- readi of w3/kernel/fs.c reads the bytes of a file.
use os_t.Prelude.{
  ℕ, ◌+◌, ◌-◌, ◌%◌, ◌≤◌, ◌<◌, ◌≡◌, refl, inl, inr, true, false, Option, if◌then◌else◌, ltb, ltb→lt,
  leb, min, Bool-cases, arith,
}
use os_t.Prelude.Run.{ok}
use os_t.Fs.{Fs, Inode}
use os_t.Fs.Map.{IsFile}
use os_t.Fs.Io.{uint_range, Read, readi}
use os_t.Fs.Bytes.{leb→le, wraps_below}
use os_t.Fs.ReadLoop.{Reads, nothing, read_loop-Reads}

min_rest :
    (n off size : ℕ)
    → off ≤ size
    → min n (size - off) ≡ (if ltb size (off + n) then size - off else n)
min_rest n off size le = elim (Bool-cases (ltb size (off + n))) [
  | inl past ↦ let over = ltb→lt size (off + n) past in rw past (omega arith)
  | inr inside ↦ let under : off + n ≤ size = ground arith in rw inside (omega arith)
]

most_fits :
    (n off size : ℕ)
    → off ≤ size
    → size ≤ 274432
    → off + ((if ltb size (off + n) then size - off else n) - 0) ≤ 274432
most_fits n off size le small = rw (← min_rest n off size le) (omega arith)

-- readi of a file, of at most MAXFILE blocks, gives the bytes of the file from the offset on, up to its
-- end or to the count; it gives fewer only where the first byte that is left is in a hole and every block
-- of the disk is in use, and -1 only where a copy fails. It changes no byte of the file, and what it leaves is a file of the same
-- size. From behind the end of the file, or with a count that wraps around, it reads nothing.
pub readi-Reads :
    (fails : ℕ → Option ℕ) (off n : ℕ) (ip : Inode) (fs : Fs) (dst : ℕ → ℕ)
    → IsFile ip fs
    → ip.size ≤ 274432
    → off < 4294967296
    → n < 4294967296
    → (out : Read) × (readi fails off n ip fs dst ≡ ok out)
      × Reads fails ip fs off 0
          (if leb (off + n) 4294967295 then min n (ip.size - off) else 0)
          dst
          out
unfolding readi
readi-Reads fails off n ip fs dst file small off_fits n_fits =
    elim (Bool-cases (leb (off + n) 4294967295)) [
      | inl fits ↦
          let sum : (off + n) % uint_range ≡ off + n =
            omega (arith, leb→le (off + n) 4294967295 fits) in
          let in_order : ltb (off + n) off ≡ false = ground arith in
          elim (Bool-cases (ltb ip.size off)) [
            | inl behind ↦
                rw (fits, sum, behind)
                  (_, refl, nothing fails ip fs off 0 _ dst file (ground arith))
            | inr before ↦
                let most : min n (ip.size - off)
                    ≡ (if ltb ip.size (off + n) then ip.size - off else n) =
                  min_rest n off ip.size (ground arith) in
                rw (fits, sum, before, in_order, most)
                  (read_loop-Reads (if ltb ip.size (off + n) then ip.size - off else n) fails 0 _
                    off ip fs dst file (omega arith) (omega arith)
                    (most_fits n off ip.size (ground arith) small))
          ]
      | inr wraps ↦
          let a : ltb ((off + n) % uint_range) off ≡ true =
            wraps_below off n (ground arith) off_fits n_fits in
          elim (Bool-cases (ltb ip.size off)) [
            | inl behind ↦ rw (wraps, behind) (_, refl, nothing fails ip fs off 0 0 dst file refl)
            | inr before ↦
                rw (wraps, before, a) (_, refl, nothing fails ip fs off 0 0 dst file refl)
          ]
    ]
