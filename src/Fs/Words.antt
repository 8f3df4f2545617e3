-- ===== src/Fs/Words.antt =====
-- The words of a block.
use os_t.Prelude.{ℕ, ◌<◌, ◌≡◌, ◌≢◌, arith}
use os_t.Fs.{load32, store32}

pub load32-store32_self :
    (bytes : ℕ → ℕ) (j v : ℕ) → v < 4294967296 → load32 (store32 bytes j v) j ≡ v
unfolding load32 store32
load32-store32_self bytes j v lt = ground arith

pub load32-store32_ne :
    (bytes : ℕ → ℕ) (j v i : ℕ) → i ≢ j → load32 (store32 bytes j v) i ≡ load32 bytes i
unfolding load32 store32
load32-store32_ne bytes j v i ne = ground arith

pub load32_zero : (j : ℕ) → load32 (λ i. 0) j ≡ 0
unfolding load32
load32_zero j = omega arith
