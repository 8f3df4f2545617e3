-- ===== src/Grep.antt =====
-- The matcher of w3/user/grep.c. A C string is the list of its bytes before the NUL, so a read of the
-- NUL is the empty list.
pub mod Relation
pub mod Correct
mod Tests
use os_t.Prelude.{ℕ, Bool, true, false, ◌&&◌, ◌||◌, List, [], ◌∷◌, if◌then◌else◌, ◌==◌}

-- matchstar, with matchhere of the expression behind the star for `here`.
pub matchstar : (List ℕ → Bool) → ℕ → List ℕ → Bool
matchstar here c [] = here []
matchstar here c (t ∷ text) = here (t ∷ text) || ((t == c || c == b'.') && matchstar here c text)

abbrev pub is_end : List ℕ → Bool
is_end [] = true
is_end (t ∷ text) = false

-- `*text!='\0' && (re[0]=='.' || re[0]==*text)`, and then matchhere of the rest.
abbrev pub match_char : (List ℕ → Bool) → ℕ → List ℕ → Bool
match_char here r [] = false
match_char here r (t ∷ text) = (r == b'.' || r == t) && here text

pub matchhere : List ℕ → List ℕ → Bool
matchhere [] text = true
matchhere (r ∷ []) text = if r == b'$' then is_end text else match_char (matchhere []) r text
matchhere (r ∷ s ∷ re) text =
    if s == b'*' then matchstar (matchhere re) r text else match_char (matchhere (s ∷ re)) r text

-- The loop of match over the rest of the text, the empty rest included.
pub match_from : List ℕ → List ℕ → Bool
match_from re [] = matchhere re []
match_from re (t ∷ text) = matchhere re (t ∷ text) || match_from re text

pub match : List ℕ → List ℕ → Bool
match [] text = match_from [] text
match (r ∷ re) text = if r == b'^' then matchhere re text else match_from (r ∷ re) text
