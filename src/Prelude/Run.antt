-- ===== src/Prelude/Run.antt =====
-- The outcome of kernel code that may panic, and of a loop that runs on fuel.
use mathlib.Core.Path.{◌≡◌, ap}

pub data Run {ℓ} (A : Type ℓ) : Type ℓ where
  ok : A → Run A
  panic : Run A
  out_of_fuel : Run A

infixl 5 ◌>>=◌
abbrev pub ◌>>=◌ {ℓ κ} : {A : Type ℓ} {B : Type κ} → Run A → (A → Run B) → Run B
ok a >>= f = f a
panic >>= f = panic
out_of_fuel >>= f = out_of_fuel

pub ok_injective {ℓ} : {A : Type ℓ} {a b : A} → ok a ≡ ok b → a ≡ b
ok_injective {a} e = ap (λ r. elim r [ ok x ↦ x | panic ↦ a | out_of_fuel ↦ a ]) e
