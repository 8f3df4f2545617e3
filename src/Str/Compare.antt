-- ===== src/Str/Compare.antt =====
-- What memcmp, strncmp and strlen of w3/kernel/string.c find.
use os_t.Prelude.{
  ℕ, zero, suc, ◌+◌, ◌<◌, ◌≡◌, refl, ap, ◌∙◌, ◌≢◌, ◌↔◌, inl, inr, some, arith, ◌==◌, Bool-cases,
}
use os_t.Prelude.Int.{pos}
use os_t.Str.{Mem, memcmp, strncmp, strlen_loop, strlen}
use os_t.Str.Copy.{strnlen}

-- The `n` bytes at `p` and those at `q` are the same.
abbrev pub SameBytes : ℕ → ℕ → ℕ → Mem → Type 0
SameBytes p q n m = (i : ℕ) → i < n → m (p + i) ≡ m (q + i)

SameBytes-suc :
    (p q n : ℕ) (m : Mem) → m p ≡ m q → SameBytes (p + 1) (q + 1) n m → SameBytes p q (suc n) m
SameBytes-suc p q n m e h zero lt = ground arith
SameBytes-suc p q n m e h (suc i) lt =
    let a : p + suc i ≡ p + 1 + i = omega arith in
    let b : q + suc i ≡ q + 1 + i = omega arith in rw (a, b) (h i (omega arith))

SameBytes-tail : (p q n : ℕ) (m : Mem) → SameBytes p q (suc n) m → SameBytes (p + 1) (q + 1) n m
SameBytes-tail p q n m h i lt =
    let a : p + 1 + i ≡ p + suc i = omega arith in
    let b : q + 1 + i ≡ q + suc i = omega arith in rw (a, b) (h (suc i) (omega arith))

SameBytes-head : (p q n : ℕ) (m : Mem) → SameBytes p q (suc n) m → m p ≡ m q
SameBytes-head p q n m h = ground (arith, h 0)

memcmp-zero : (p q n : ℕ) (m : Mem) → memcmp p q n m ≡ pos 0 → SameBytes p q n m
unfolding memcmp
memcmp-zero p q zero m e = λ i lt. absurd (omega arith)
memcmp-zero p q (suc n) m e =
    SameBytes-suc p q n m (ground arith) (memcmp-zero (p + 1) (q + 1) n m (ground arith))

zero-memcmp : (p q n : ℕ) (m : Mem) → SameBytes p q n m → memcmp p q n m ≡ pos 0
unfolding memcmp
zero-memcmp p q zero m h = refl
zero-memcmp p q (suc n) m h =
    ground
      (arith, SameBytes-head p q n m h, zero-memcmp (p + 1) (q + 1) n m (SameBytes-tail p q n m h))

-- memcmp returns 0 exactly when the two ranges of `n` bytes are the same.
pub memcmp_iff : (p q n : ℕ) (m : Mem) → (memcmp p q n m ≡ pos 0) ↔ SameBytes p q n m
memcmp_iff p q n m = (memcmp-zero p q n m, zero-memcmp p q n m)

-- Two strings agree in their first `n` bytes: the same length there, and the same bytes.
pub record SameStrings (p q n : ℕ) (m : Mem) : Type 0 where
  pub same_length : strnlen p n m ≡ strnlen q n m
  pub same_bytes : SameBytes p q (strnlen p n m) m

strncmp-zero : (p q n : ℕ) (m : Mem) → strncmp p q n m ≡ pos 0 → SameStrings p q n m
unfolding strncmp strnlen
strncmp-zero p q zero m e = record { same_length = refl; same_bytes = λ i lt. absurd (omega arith) }
strncmp-zero p q (suc n) m e = elim (Bool-cases (m p == 0)) [
  | inl z ↦ record { same_length = ground arith; same_bytes = rw z (λ i lt. absurd (omega arith)) }
  | inr z ↦
      let r = strncmp-zero (p + 1) (q + 1) n m (ground arith) in
      record {
        same_length = ground (arith, r.same_length);
        same_bytes = rw z (SameBytes-suc p q (strnlen (p + 1) n m) m (ground arith) r.same_bytes);
      }
]

zero-strncmp : (p q n : ℕ) (m : Mem) → SameStrings p q n m → strncmp p q n m ≡ pos 0
unfolding strncmp strnlen
zero-strncmp p q zero m h = refl
zero-strncmp p q (suc n) m h = elim (Bool-cases (m p == 0)) [
  | inl z ↦ ground (arith, h.same_length)
  | inr z ↦
      let same : SameBytes p q (suc (strnlen (p + 1) n m)) m = rw z at h.same_bytes in
      ground (
        arith,
        h.same_length,
        SameBytes-head p q (strnlen (p + 1) n m) m same,
        zero-strncmp (p + 1) (q + 1) n m (record {
          same_length =
              ground (arith, h.same_length, SameBytes-head p q (strnlen (p + 1) n m) m same);
          same_bytes = SameBytes-tail p q (strnlen (p + 1) n m) m same;
        }),
      )
]

-- strncmp returns 0 exactly when the two strings agree in their first `n` bytes.
pub strncmp_iff : (p q n : ℕ) (m : Mem) → (strncmp p q n m ≡ pos 0) ↔ SameStrings p q n m
strncmp_iff p q n m = (strncmp-zero p q n m, zero-strncmp p q n m)

strlen_loop_lem :
    (f n s k : ℕ) (m : Mem)
    → k < f
    → m (s + n + k) ≡ 0
    → ((i : ℕ) → i < k → m (s + n + i) ≢ 0)
    → strlen_loop f n s m ≡ some (n + k)
unfolding strlen_loop
strlen_loop_lem zero n s k m lt e h = absurd (omega arith)
strlen_loop_lem (suc f) n s zero m lt e h = ground arith
strlen_loop_lem (suc f) n s (suc k) m lt e h =
    let here : m (s + n) ≢ 0 = ground (arith, h 0) in
    let rest : strlen_loop f (n + 1) s m ≡ some (n + 1 + k) =
      strlen_loop_lem f (n + 1) s k m (omega arith) (ground arith)
        (λ i lt'. ground (arith, h (suc i))) in
    ground arith

-- strlen returns the index of the first NUL, with any fuel above it.
strlen_lem :
    (f s k : ℕ) (m : Mem)
    → k < f
    → m (s + k) ≡ 0
    → ((i : ℕ) → i < k → m (s + i) ≢ 0)
    → strlen f s m ≡ some k
unfolding strlen
strlen_lem f s k m lt e h =
    strlen_loop_lem f 0 s k m lt (ground arith) (λ i lt'. ground (arith, h i))
    ∙ ap some (omega arith)
