-- ===== src/Fs/Bytes.antt =====
-- The bytes of a file of w3/kernel/fs.c, and copies of them.
use os_t.Prelude.{
  ℕ, ◌+◌, ◌-◌, ◌/◌, ◌%◌, ◌≤◌, ◌<◌, ◌≡◌, ◌≢◌, refl, sym, ap, ◌∙◌, inl, inr, true, false, ◌&&◌,
  if◌then◌else◌, ◌==◌, ltb, leb, Bool-cases, arith,
}
use os_t.Fs.{Fs, Inode}
use os_t.Fs.Map.{maxfile, content, bytes_at}
use os_t.Fs.Slot.{Mapped}
use os_t.Fs.Io.{uint_range, copied}

-- The byte of a file at an offset; a hole reads as zeros.
unfoldable pub byte_at : Inode → Fs → ℕ → ℕ
byte_at ip fs o = content ip fs (o / 1024) (o % 1024)

-- The bytes of a chunk in the block are those of the file.
pub block_byte :
    (off j addr : ℕ) (ip : Inode) (fs : Fs) (out : ℕ × Inode × Fs)
    → Mapped (off / 1024) ip fs out
    → off / 1024 < maxfile
    → out.0 ≢ 0
    → off % 1024 + j < 1024
    → out.2.blocks (out.0) (off % 1024 + j) ≡ byte_at ip fs (off + j)
unfolding byte_at
block_byte off j addr ip fs out m lt nz inside =
    let block : (off + j) / 1024 ≡ off / 1024 = omega arith in
    let place : (off + j) % 1024 ≡ off % 1024 + j = omega arith in
    let a : (out.0 == 0) ≡ false = ground arith in
    let here : content (out.1) (out.2) (off / 1024) (off % 1024 + j)
        ≡ out.2.blocks (out.0) (off % 1024 + j) =
      ap (λ x. bytes_at (out.2) x (off % 1024 + j)) m.here ∙ rw a refl in
    rw (block, place) (sym here ∙ m.same (off / 1024) (off % 1024 + j) lt)

pub copied_none :
    (mem : ℕ → ℕ) (at k : ℕ) (source : ℕ → ℕ) (i : ℕ) → copied mem at (k - k) source i ≡ mem i
copied_none mem at k source i =
    let out : (leb at i && ltb i (at + (k - k))) ≡ false = ground arith in rw out refl

pub outside_copy :
    (mem : ℕ → ℕ) (at m : ℕ) (source : ℕ → ℕ) (i : ℕ)
    → (leb at i && ltb i (at + m)) ≡ false
    → copied mem at m source i ≡ mem i
outside_copy mem at m source i out = rw out refl

pub copied_mem :
    (mem mem' : ℕ → ℕ) (at m : ℕ) (source : ℕ → ℕ) (i : ℕ)
    → mem i ≡ mem' i
    → copied mem at m source i ≡ copied mem' at m source i
copied_mem mem mem' at m source i e =
    ap (λ x. if leb at i && ltb i (at + m) then source (i - at) else x) e

-- A copy after a copy.
pub copied_join :
    (mem : ℕ → ℕ) (at m t : ℕ) (first second all : ℕ → ℕ) (i : ℕ)
    → at + m ≤ t
    → ((j : ℕ) → j < m → first j ≡ all j)
    → ((j : ℕ) → at + m + j < t → second j ≡ all (m + j))
    → copied (copied mem at m first) (at + m) (t - (at + m)) second i ≡ copied mem at (t - at) all i
copied_join mem at m t first second all i le same next =
    elim (Bool-cases (leb at i && ltb i (at + m))) [
      | inl inner ↦
          let a : (leb (at + m) i && ltb i (at + m + (t - (at + m)))) ≡ false = ground arith in
          let b : (leb at i && ltb i (at + (t - at))) ≡ true = ground arith in
          rw (a, b, inner) (same (i - at) (ground arith))
      | inr outer ↦ elim (Bool-cases (leb (at + m) i && ltb i (at + m + (t - (at + m))))) [
        | inl later ↦
            let b : (leb at i && ltb i (at + (t - at))) ≡ true = ground arith in
            rw (later, b) (next (i - (at + m)) (ground arith) ∙ ap all (ground arith))
        | inr out ↦
            let b : (leb at i && ltb i (at + (t - at))) ≡ false = ground arith in
            rw (out, b, outer) refl
      ]
    ]

pub leb→le : (a b : ℕ) → leb a b ≡ true → a ≤ b
leb→le a b h = ground arith

pub wraps_below :
    (off n : ℕ)
    → 4294967295 < off + n
    → off < 4294967296
    → n < 4294967296
    → ltb ((off + n) % uint_range) off ≡ true
wraps_below off n over off_fits n_fits =
    let sum : (off + n) % uint_range ≡ off + n - 4294967296 = omega arith in rw sum (ground arith)
