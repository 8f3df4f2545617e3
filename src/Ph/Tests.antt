-- ===== src/Ph/Tests.antt =====
-- Two threads whose shares have a key in common.
use os_t.Prelude.{ℕ, ◌≡◌, refl, some, List, [], ◌∷◌, if◌then◌else◌, ◌==◌, arith}
use mathlib.Core.List.{Memᴰ}
use mathlib.Core.List.Memᴰ.{head, tail, not-nil}
use os_t.Ph.{
  find_entry, set_value, insert, put_chain, put, get, Puts, put_round, Reach, start, next, missing,
}
use os_t.Ph.Threads.{fresh, missing_lem}

abbrev shares : ℕ → List ℕ
shares i = if i == 0 then 7 ∷ [] else if i == 1 then 12 ∷ 7 ∷ [] else []

abbrev one : Puts
one = record { table = put 12 1 (λ i. []); left = λ i. if i == 1 then 7 ∷ [] else shares i }

abbrev two : Puts
two = record { table = put 7 0 one.table; left = λ i. if i == 0 then [] else one.left i }

abbrev three : Puts
three = record { table = put 7 1 two.table; left = λ i. if i == 1 then [] else two.left i }

runs : Reach (fresh shares) three
runs =
    next (next (next start (put_round 1 12 (7 ∷ []) refl)) (put_round 0 7 [] refl))
      (put_round 1 7 [] refl)

-- The last put of a key stays.
last_put : get 7 three.table ≡ some (record { key = 7; value = 1 })
unfolding get put put_chain find_entry set_value insert
last_put = refl

absent : missing (7 ∷ 3 ∷ []) three.table ≡ 1
unfolding missing get put put_chain find_entry set_value insert
absent = refl

all_done : (n : ℕ) → three.left n ≡ []
all_done n = ground arith

shared : (k : ℕ) → Memᴰ k (7 ∷ 12 ∷ []) → (n : ℕ) × Memᴰ k (shares n)
shared k (head e) = (0, head e)
shared k (tail (head e)) = (1, head e)
shared k (tail (tail m)) = absurd (not-nil m)

missing_lem_example : missing (7 ∷ 12 ∷ []) three.table ≡ 0
missing_lem_example = missing_lem shares three (7 ∷ 12 ∷ []) runs all_done shared
