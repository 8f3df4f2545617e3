-- ===== src/Str/Words.antt =====
-- A 64-bit word in eight bytes of memory, the lowest byte first.
use os_t.Prelude.{ℕ, ◌+◌, ◌*◌, ◌/◌, ◌%◌, ◌^◌, ◌<◌, ◌≤◌, ◌≡◌, ◌⊎◌, arith}
use os_t.Str.{Mem, store}

unfoldable pub load64 : Mem → ℕ → ℕ
load64 m a =
    m a
    + 2 ^ 8 * m (a + 1)
    + 2 ^ 16 * m (a + 2)
    + 2 ^ 24 * m (a + 3)
    + 2 ^ 32 * m (a + 4)
    + 2 ^ 40 * m (a + 5)
    + 2 ^ 48 * m (a + 6)
    + 2 ^ 56 * m (a + 7)

unfoldable pub store64 : Mem → ℕ → ℕ → Mem
store64 m a v =
    let m1 = store (store m a (v % 2 ^ 8)) (a + 1) (v / 2 ^ 8 % 2 ^ 8) in
    let m2 = store (store m1 (a + 2) (v / 2 ^ 16 % 2 ^ 8)) (a + 3) (v / 2 ^ 24 % 2 ^ 8) in
    let m3 = store (store m2 (a + 4) (v / 2 ^ 32 % 2 ^ 8)) (a + 5) (v / 2 ^ 40 % 2 ^ 8) in
    store (store m3 (a + 6) (v / 2 ^ 48 % 2 ^ 8)) (a + 7) (v / 2 ^ 56 % 2 ^ 8)

store64_bytes :
    (m : Mem) (a v : ℕ)
    → (store64 m a v a ≡ v % 2 ^ 8)
      × (store64 m a v (a + 1) ≡ v / 2 ^ 8 % 2 ^ 8)
      × (store64 m a v (a + 2) ≡ v / 2 ^ 16 % 2 ^ 8)
      × (store64 m a v (a + 3) ≡ v / 2 ^ 24 % 2 ^ 8)
      × (store64 m a v (a + 4) ≡ v / 2 ^ 32 % 2 ^ 8)
      × (store64 m a v (a + 5) ≡ v / 2 ^ 40 % 2 ^ 8)
      × (store64 m a v (a + 6) ≡ v / 2 ^ 48 % 2 ^ 8)
      × (store64 m a v (a + 7) ≡ v / 2 ^ 56 % 2 ^ 8)
unfolding store64
store64_bytes m a v = (
  ground arith,
  ground arith,
  ground arith,
  ground arith,
  ground arith,
  ground arith,
  ground arith,
  ground arith,
)

-- A stored word is read back.
pub load64-store64 : (m : Mem) (a v : ℕ) → v < 2 ^ 64 → load64 (store64 m a v) a ≡ v
unfolding load64
load64-store64 m a v h = omega (arith, store64_bytes m a v)

-- Nothing changes outside the eight bytes.
pub store64_outside : (m : Mem) (a v b : ℕ) → (b < a) ⊎ (a + 8 ≤ b) → store64 m a v b ≡ m b
unfolding store64
store64_outside m a v b h = ground arith

-- A load depends on its eight bytes alone.
pub load64-congr :
    (m m' : Mem) (a : ℕ) → ((b : ℕ) → a ≤ b → b < a + 8 → m' b ≡ m b) → load64 m' a ≡ load64 m a
unfolding load64
load64-congr m m' a h = omega (
  arith,
  h a (omega arith) (omega arith),
  h (a + 1) (omega arith) (omega arith),
  h (a + 2) (omega arith) (omega arith),
  h (a + 3) (omega arith) (omega arith),
  h (a + 4) (omega arith) (omega arith),
  h (a + 5) (omega arith) (omega arith),
  h (a + 6) (omega arith) (omega arith),
  h (a + 7) (omega arith) (omega arith),
)
