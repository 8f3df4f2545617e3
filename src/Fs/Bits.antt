-- ===== src/Fs/Bits.antt =====
-- The bits of a byte.
use os_t.Prelude.{
  ℕ, zero, suc, ◌+◌, ◌-◌, ◌*◌, ◌/◌, ◌%◌, ◌≡◌, true, false, if◌then◌else◌, ◌==◌, arith, ap, ◌∙◌,
}
use os_t.Fs.{test_bit, set_bit, clear_bit}

pub test_bit-set_bit :
    (x k j : ℕ) → test_bit (set_bit x k) j ≡ (if j == k then true else test_bit x j)
unfolding test_bit set_bit
test_bit-set_bit x zero zero = ground arith
test_bit-set_bit x zero (suc j) = ap (λ y. test_bit y j) half ∙ ground arith
  where
    half : (x - x % 2 + 1) / 2 ≡ x / 2
    half = omega arith
test_bit-set_bit x (suc k) zero = ground arith
test_bit-set_bit x (suc k) (suc j) =
    ap (λ y. test_bit y j) half ∙ test_bit-set_bit (x / 2) k j ∙ ground arith
  where
    half : (x % 2 + 2 * set_bit (x / 2) k) / 2 ≡ set_bit (x / 2) k
    half = omega arith

pub test_bit-clear_bit :
    (x k j : ℕ) → test_bit (clear_bit x k) j ≡ (if j == k then false else test_bit x j)
unfolding test_bit clear_bit
test_bit-clear_bit x zero zero = ground arith
test_bit-clear_bit x zero (suc j) = ap (λ y. test_bit y j) half ∙ ground arith
  where
    half : (x - x % 2) / 2 ≡ x / 2
    half = omega arith
test_bit-clear_bit x (suc k) zero = ground arith
test_bit-clear_bit x (suc k) (suc j) =
    ap (λ y. test_bit y j) half ∙ test_bit-clear_bit (x / 2) k j ∙ ground arith
  where
    half : (x % 2 + 2 * clear_bit (x / 2) k) / 2 ≡ clear_bit (x / 2) k
    half = omega arith
