-- ===== src/Console/Writes.antt =====
-- consolewrite of w3/kernel/console.c.
use os_t.Prelude.{
  ℕ, zero, suc, ◌+◌, ◌-◌, ◌≤◌, ◌<◌, ◌≡◌, refl, ap, ◌∙◌, inl, inr, Option, some, List, [], ◌∷◌, ◌++◌,
  if◌then◌else◌, ltb, Bool-cases, arith,
}
use os_t.Console.{write_chunks, consolewrite}

-- The bytes at `k` places from `i` on.
abbrev pub bytes_from : (ℕ → ℕ) → ℕ → ℕ → List ℕ
bytes_from source i zero = []
bytes_from source i (suc k) = source i ∷ bytes_from source (suc i) k

bytes_from-append :
    (source : ℕ → ℕ) (i k m : ℕ)
    → bytes_from source i k ++ bytes_from source (i + k) m ≡ bytes_from source i (k + m)
bytes_from-append source i zero m =
    let e : i + 0 ≡ i = omega arith in let d : 0 + m ≡ m = omega arith in rw (e, d)
bytes_from-append source i (suc k) m =
    let e : i + suc k ≡ suc i + k = omega arith in
    let d : suc k + m ≡ suc (k + m) = omega arith in rw (e, d, bytes_from-append source (suc i) k m)

module _ (source : ℕ → ℕ) (copyin : ℕ → ℕ → Option (List ℕ))
    (copies : (i k : ℕ) → copyin i k ≡ some (bytes_from source i k)) where
  write_chunks_lem :
      (f n i : ℕ) → i ≤ n → n ≤ i + f → write_chunks copyin f n i ≡ (bytes_from source i (n - i), n)
  unfolding write_chunks
  write_chunks_lem zero n i le h =
      let e : n - i ≡ 0 = omega arith in let d : i ≡ n = omega arith in rw (e, d)
  write_chunks_lem (suc f) n i le h = elim (Bool-cases (ltb i n)) [
    | inr at_end ↦
        let e : n - i ≡ 0 = ground arith in
        let d : i ≡ n = ground arith in rw (at_end, e) (rw d refl)
    | inl more ↦
        let size : ℕ = if ltb (n - i) 32 then n - i else 32 in
        let some_bytes : 0 < size = ground arith in
        let fits : i + size ≤ n = ground arith in
        let ih = write_chunks_lem f n (i + size) fits (omega arith) in
        let rest : ℕ = n - (i + size) in
        let count : size + rest ≡ n - i = omega arith in
        rw (more, copies i size, ih, bytes_from-append source i size rest, count)
  ]

  -- consolewrite sends all `n` bytes, each once and in order, and returns `n`, where either_copyin works.
  pub consolewrite_lem : (n : ℕ) → consolewrite copyin n ≡ (bytes_from source 0 n, n)
  unfolding consolewrite
  consolewrite_lem n =
      let all : n - 0 ≡ n = omega arith in
      write_chunks_lem n n 0 (omega arith) (omega arith) ∙ ap (λ k. (bytes_from source 0 k, n)) all
