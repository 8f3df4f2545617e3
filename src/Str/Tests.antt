-- ===== src/Str/Tests.antt =====
-- Runs of the string functions, and their theorems at a small memory.
use os_t.Prelude.{ℕ, ◌+◌, ◌<◌, ◌≢◌, zero, suc, ◌≡◌, refl, List, [], ◌∷◌, arith}
use os_t.Prelude.Int.{negsuc}
use os_t.Str.{Mem, memcmp, memmove, strncpy, safestrcpy, copy_down, zero_fill, safestrcpy_loop}
use os_t.Str.Copy.{memmove_lem}

-- The given bytes from address 0 on, and 7 everywhere else.
abbrev bytes : List ℕ → Mem
bytes [] a = 7
bytes (x ∷ xs) zero = x
bytes (x ∷ xs) (suc a) = bytes xs a

abbrev ram : Mem
ram = bytes (1 ∷ 2 ∷ 3 ∷ 0 ∷ 5 ∷ 6 ∷ 1 ∷ 2 ∷ 4 ∷ [])

memmove_overlap : memmove 2 0 4 ram 5 ≡ 0
unfolding memmove copy_down
memmove_overlap = refl

memcmp_runs : memcmp 0 6 3 ram ≡ negsuc 0
unfolding memcmp
memcmp_runs = refl

safestrcpy_runs : safestrcpy 10 0 3 ram 12 ≡ 0
unfolding safestrcpy safestrcpy_loop
safestrcpy_runs = refl

strncpy_runs : strncpy 10 0 6 ram 15 ≡ 0
unfolding strncpy zero_fill
strncpy_runs = refl

memmove_lem_example : memmove 2 0 4 ram 4 ≡ 3
memmove_lem_example = memmove_lem 2 0 4 ram 4

no_nul : (i : ℕ) → i < 2 → ram (1 + i) ≢ 0
no_nul zero lt e = omega arith
no_nul (suc zero) lt e = omega arith
no_nul (suc (suc i)) lt e = omega arith
