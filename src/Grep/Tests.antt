-- ===== src/Grep/Tests.antt =====
-- The matcher on small texts.
use os_t.Prelude.{ℕ, ◌≡◌, refl, ◌↔◌, true, false, List, [], ◌∷◌}
use os_t.Grep.{matchstar, matchhere, match_from, match}
use os_t.Grep.Correct.{Matches, match_iff}

-- b*c$
abbrev re : List ℕ
re = b'b' ∷ b'*' ∷ b'c' ∷ b'$' ∷ []

abbrev text : List ℕ
text = b'a' ∷ b'b' ∷ b'b' ∷ b'c' ∷ []

match_runs : match re text ≡ true
unfolding match match_from matchhere matchstar
match_runs = refl

match_caret : match (b'^' ∷ re) text ≡ false
unfolding match match_from matchhere matchstar
match_caret = refl

match_iff_example : (match re text ≡ true) ↔ Matches re text
match_iff_example = match_iff re text
