-- ===== src/Grep/Relation.antt =====
-- What an expression of w3/user/grep.c means.
use os_t.Prelude.{ℕ, ◌≡◌, ◌≢◌, ◌⊎◌, List, [], ◌∷◌, ◌++◌}

-- The character class of a letter or a dot.
abbrev pub Accepts : ℕ → ℕ → Type 0
Accepts r t = (r ≡ b'.') ⊎ (r ≡ t)

-- The next character is no star.
abbrev pub NoStar : List ℕ → Type 0
NoStar [] = Unit {0}
NoStar (s ∷ re) = s ≢ b'*'

-- Not a dollar at the end of the expression.
abbrev pub NoDollar : ℕ → List ℕ → Type 0
NoDollar r [] = r ≢ b'$'
NoDollar r (s ∷ re) = Unit {0}

-- The expression matches at the beginning of the text.
pub data Here : List ℕ → List ℕ → Type 0 where
  nothing : (text : List ℕ) → Here [] text
  dollar : (r : ℕ) → r ≡ b'$' → Here (r ∷ []) []
  char :
      {r t : ℕ} {re text : List ℕ}
      → NoStar re
      → NoDollar r re
      → Accepts r t
      → Here re text
      → Here (r ∷ re) (t ∷ text)
  star_none : {r s : ℕ} {re text : List ℕ} → s ≡ b'*' → Here re text → Here (r ∷ s ∷ re) text
  star_more :
      {r s t : ℕ} {re text : List ℕ}
      → s ≡ b'*'
      → Accepts r t
      → Here (r ∷ s ∷ re) text
      → Here (r ∷ s ∷ re) (t ∷ text)

-- The expression matches somewhere in the text.
abbrev pub Somewhere : List ℕ → List ℕ → Type 0
Somewhere re text = (before : List ℕ) × (after : List ℕ) × (text ≡ before ++ after) × Here re after
