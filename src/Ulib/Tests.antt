-- ===== src/Ulib/Tests.antt =====
-- Runs of w3/user/ulib.c.
use os_t.Prelude.{◌≡◌, refl, [], ◌∷◌}
use os_t.Prelude.Int.{negsuc}
use os_t.Ulib.{atoi_loop, atoi, strcmp}

atoi_stops : atoi (b'4' ∷ b'2' ∷ b'k' ∷ b'1' ∷ []) ≡ 42
unfolding atoi atoi_loop
atoi_stops = refl

-- 2 ^ 32 + 1
atoi_wraps : atoi (b'4' ∷ b'2' ∷ b'9' ∷ b'4' ∷ b'9' ∷ b'6' ∷ b'7' ∷ b'2' ∷ b'9' ∷ b'7' ∷ []) ≡ 1
unfolding atoi atoi_loop
atoi_wraps = refl

strcmp_prefix : strcmp (b'a' ∷ []) (b'a' ∷ b'b' ∷ []) ≡ negsuc 97
unfolding strcmp
strcmp_prefix = refl
