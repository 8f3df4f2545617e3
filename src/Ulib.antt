-- ===== src/Ulib.antt =====
-- w3/user/ulib.c. A C string is the list of its bytes before the NUL, and a pointer into it is the
-- rest of the list.
mod Tests
use os_t.Prelude.{
  ℕ, ◌+◌, ◌-◌, ◌*◌, ◌%◌, ◌≡◌, Bool, ap, ap₂, ◌↔◌, inl, inr, ◌&&◌, Option, none, some, List, [], ◌∷◌,
  if◌then◌else◌, ◌==◌, ltb, leb, Bool-cases, arith, true, false,
}
use os_t.Prelude.Int.{ℤ, pos, negsuc, sub_ℕ}

unfoldable pub strchr : List ℕ → ℕ → Option (List ℕ)
strchr [] c = none
strchr (x ∷ s) c = if x == c then some (x ∷ s) else strchr s c

abbrev pub is_digit : ℕ → Bool
is_digit c = leb b'0' c && leb c b'9'

-- The loop of atoi. An int is the number of its 32 bits.
unfoldable pub atoi_loop : ℕ → List ℕ → ℕ
atoi_loop n [] = n
atoi_loop n (c ∷ s) =
    let rest = atoi_loop ((n * 10 + c + 4294967296 - b'0') % 4294967296) s in
    if is_digit c then rest else n

unfoldable pub atoi : List ℕ → ℕ
atoi s = atoi_loop 0 s

-- strcmp: the difference of the bytes where the strings part, the NUL included.
unfoldable pub strcmp : List ℕ → List ℕ → ℤ
strcmp [] [] = pos 0
strcmp [] (d ∷ q) = sub_ℕ 0 d
strcmp (c ∷ p) [] = sub_ℕ c 0
strcmp (c ∷ p) (d ∷ q) = if c == d then strcmp p q else sub_ℕ c d
