-- ===== src/Sh/Lex.antt =====
-- gettoken and peek of w3/user/sh.c.
use os_t.Prelude.{ℕ, Bool, true, false, ◌||◌, none, some, List, [], ◌∷◌, if◌then◌else◌, ◌==◌}
use os_t.Ulib.{strchr}

-- Whether strchr finds the byte.
unfoldable pub strchr_has : List ℕ → ℕ → Bool
unfolding strchr
strchr_has s c = elim (strchr s c) [ none ↦ false | some p ↦ true ]

-- " \t\r\n\v"
abbrev pub whitespace : List ℕ
whitespace = 32 ∷ 9 ∷ 13 ∷ 10 ∷ 11 ∷ []

abbrev pub symbols : List ℕ
symbols = b'<' ∷ b'|' ∷ b'>' ∷ b'&' ∷ b';' ∷ b'(' ∷ b')' ∷ []

-- `while(s < es && strchr(whitespace, *s)) s++;`
unfoldable pub skip_space : List ℕ → List ℕ
skip_space [] = []
skip_space (c ∷ s) = if strchr_has whitespace c then skip_space s else c ∷ s

-- The loop over a word: its bytes, and the rest.
unfoldable pub take_word : List ℕ → List ℕ × List ℕ
take_word [] = ([], [])
take_word (c ∷ s) =
    let (word, rest) = take_word s in
    if strchr_has whitespace c || strchr_has symbols c then ([], c ∷ s) else (c ∷ word, rest)

-- What follows a `>`.
unfoldable pub token_gt : List ℕ → ℕ × List ℕ × List ℕ
token_gt [] = (b'>', b'>' ∷ [], [])
token_gt (c ∷ s) = if c == b'>' then (b'+', b'>' ∷ b'>' ∷ [], s) else (b'>', b'>' ∷ [], c ∷ s)

-- The switch of gettoken: the token, the bytes from q to eq, and the rest.
unfoldable pub token : List ℕ → ℕ × List ℕ × List ℕ
unfolding token_gt take_word
token [] = (0, [], [])
token (c ∷ s) =
    if c == b'|' || c == b'(' || c == b')' || c == b';' || c == b'&' || c == b'<'
    then (c, c ∷ [], s)
    else if c == b'>'
    then token_gt s
    else let (word, rest) = take_word (c ∷ s) in (b'a', word, rest)

unfoldable pub gettoken : List ℕ → ℕ × List ℕ × List ℕ
unfolding token skip_space
gettoken s = let (ret, word, rest) = token (skip_space s) in (ret, word, skip_space rest)

-- `*s && strchr(toks, *s)`
unfoldable pub sees : List ℕ → List ℕ → Bool
sees toks [] = false
sees toks (c ∷ s) = strchr_has toks c

unfoldable pub peek : List ℕ → List ℕ → Bool × List ℕ
unfolding skip_space sees
peek s toks = (sees toks (skip_space s), skip_space s)
