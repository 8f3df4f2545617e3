-- ===== src/Sh/Tokens.antt =====
-- The tokens of a text for the shell of w3/user/sh.c, and what gettoken and peek see of them.
use os_t.Prelude.{
  ℕ, ◌≤◌, ◌≡◌, refl, ap, Bool, true, false, ◌||◌, List, [], ◌∷◌, ◌++◌, length, length-append, ◌==◌,
  arith,
}
use os_t.Sh.Lex.{
  strchr_has, whitespace, symbols, skip_space, take_word, token_gt, gettoken, sees, peek,
}

pub data Tok : Type 0 where
  bar lparen rparen semi amp lt gt append : Tok
  word : List ℕ → Tok

-- What gettoken returns for the token.
abbrev pub code : Tok → ℕ
code bar = b'|'
code lparen = b'('
code rparen = b')'
code semi = b';'
code amp = b'&'
code lt = b'<'
code gt = b'>'
code append = b'+'
code (word w) = b'a'

-- The tokens of a single byte, but for `>`.
abbrev pub IsSingle : Tok → Type 0
IsSingle gt = ⊥
IsSingle append = ⊥
IsSingle (word w) = ⊥
IsSingle _ = Unit

abbrev pub text_of : Tok → List ℕ
text_of append = b'>' ∷ b'>' ∷ []
text_of (word w) = w
text_of bar = b'|' ∷ []
text_of lparen = b'(' ∷ []
text_of rparen = b')' ∷ []
text_of semi = b';' ∷ []
text_of amp = b'&' ∷ []
text_of lt = b'<' ∷ []
text_of gt = b'>' ∷ []

-- A byte that belongs to a word.
abbrev pub is_plain : ℕ → Bool
is_plain c = elim (strchr_has whitespace c || strchr_has symbols c) [ true ↦ false | false ↦ true ]

abbrev pub Plain : List ℕ → Type 0
Plain [] = Unit
Plain (c ∷ w) = (is_plain c ≡ true) × Plain w

abbrev pub Ends : List ℕ → Type 0
Ends [] = Unit
Ends (c ∷ s) = is_plain c ≡ false

abbrev pub NotGt : List ℕ → Type 0
NotGt [] = Unit
NotGt (c ∷ s) = (c == b'>') ≡ false

-- The tokens of a text, with any spaces between them: a word ends at a space, at a symbol or at the
-- end, and `>>` is one token.
pub data Toks : List ℕ → List Tok → Type 0 where
  stop : Toks [] []
  space :
      {c : ℕ} {s : List ℕ} {ts : List Tok}
      → strchr_has whitespace c ≡ true
      → Toks s ts
      → Toks (c ∷ s) ts
  single :
      {c : ℕ} {s : List ℕ} {t : Tok} {ts : List Tok}
      → IsSingle t
      → c ≡ code t
      → Toks s ts
      → Toks (c ∷ s) (t ∷ ts)
  more :
      {c : ℕ} {s : List ℕ} {ts : List Tok} → c ≡ b'>' → NotGt s → Toks s ts → Toks (c ∷ s) (gt ∷ ts)
  twice :
      {c d : ℕ} {s : List ℕ} {ts : List Tok}
      → c ≡ b'>'
      → d ≡ b'>'
      → Toks s ts
      → Toks (c ∷ d ∷ s) (append ∷ ts)
  plain :
      {c : ℕ} {w s t : List ℕ} {ts : List Tok}
      → is_plain c ≡ true
      → Plain w
      → t ≡ w ++ s
      → Ends s
      → Toks s ts
      → Toks (c ∷ t) (word (c ∷ w) ∷ ts)

-- One token from the front of a text.
pub record Next (s : List ℕ) (t : Tok) (ts : List Tok) : Type 0 where
  pub rest : List ℕ
  pub taken : gettoken s ≡ (code t, text_of t, rest)
  pub others : Toks rest ts

not_space : (c : ℕ) → is_plain c ≡ true → strchr_has whitespace c ≡ false
not_space c h = ground arith

not_symbol : (c : ℕ) → is_plain c ≡ true → strchr_has symbols c ≡ false
not_symbol c h = ground arith

no_word : (c : ℕ) → is_plain c ≡ false → (strchr_has whitespace c || strchr_has symbols c) ≡ true
no_word c h = ground arith

-- The tests of the switch of gettoken fail at a byte of a word.
not_operator :
    (c : ℕ)
    → is_plain c ≡ true
    → ((c == b'|' || c == b'(' || c == b')' || c == b';' || c == b'&' || c == b'<') ≡ false)
      × ((c == b'>') ≡ false)
unfolding strchr_has
not_operator c h = let s = not_symbol c h in (ground arith, ground arith)

-- Trimmed texts start with a token.
pub skip_space-Toks : {s : List ℕ} {ts : List Tok} → Toks s ts → Toks (skip_space s) ts
unfolding skip_space strchr_has
skip_space-Toks stop = stop
skip_space-Toks (space {c} h r) = rw h (skip_space-Toks r)
skip_space-Toks (single {t = bar} i e r) = rw e (single i refl r)
skip_space-Toks (single {t = lparen} i e r) = rw e (single i refl r)
skip_space-Toks (single {t = rparen} i e r) = rw e (single i refl r)
skip_space-Toks (single {t = semi} i e r) = rw e (single i refl r)
skip_space-Toks (single {t = amp} i e r) = rw e (single i refl r)
skip_space-Toks (single {t = lt} i e r) = rw e (single i refl r)
skip_space-Toks (single {t = gt} i e r) = absurd i
skip_space-Toks (single {t = append} i e r) = absurd i
skip_space-Toks (single {t = word w} i e r) = absurd i
skip_space-Toks (more e n r) = rw e (more refl n r)
skip_space-Toks (twice e d r) = rw e (twice refl d r)
skip_space-Toks (plain {c} p w e n r) = rw (not_space c p) (plain p w e n r)

-- What peek finds of a token.
abbrev pub shows : List ℕ → Tok → Bool
shows set append = strchr_has set b'>'
shows set (word w) = false
shows set bar = strchr_has set b'|'
shows set lparen = strchr_has set b'('
shows set rparen = strchr_has set b')'
shows set semi = strchr_has set b';'
shows set amp = strchr_has set b'&'
shows set lt = strchr_has set b'<'
shows set gt = strchr_has set b'>'

-- A set that has no byte of a word.
abbrev pub NoWord : List ℕ → Type 0
NoWord set = (c : ℕ) → is_plain c ≡ true → strchr_has set c ≡ false

sees-Toks :
    (set : List ℕ) {s : List ℕ} {t : Tok} {ts : List Tok}
    → NoWord set
    → Toks s (t ∷ ts)
    → sees set (skip_space s) ≡ shows set t
unfolding skip_space sees strchr_has
sees-Toks set none_in (space {c} h r) = rw h (sees-Toks set none_in r)
sees-Toks set none_in (single {t = bar} i e r) = rw e
sees-Toks set none_in (single {t = lparen} i e r) = rw e
sees-Toks set none_in (single {t = rparen} i e r) = rw e
sees-Toks set none_in (single {t = semi} i e r) = rw e
sees-Toks set none_in (single {t = amp} i e r) = rw e
sees-Toks set none_in (single {t = lt} i e r) = rw e
sees-Toks set none_in (single {t = gt} i e r) = absurd i
sees-Toks set none_in (single {t = append} i e r) = absurd i
sees-Toks set none_in (single {t = word w} i e r) = absurd i
sees-Toks set none_in (more e n r) = rw e
sees-Toks set none_in (twice e d r) = rw e
sees-Toks set none_in (plain {c} p w e n r) = rw (not_space c p) (none_in c p)

take_word-Plain : (w s : List ℕ) → Plain w → Ends s → take_word (w ++ s) ≡ (w, s)
unfolding take_word
take_word-Plain [] [] h n = refl
take_word-Plain [] (c ∷ s) h n = rw (no_word c n)
take_word-Plain (c ∷ w) s h n = rw (not_space c h.0, not_symbol c h.0, take_word-Plain w s h.1 n)

token_gt-NotGt : (s : List ℕ) → NotGt s → token_gt s ≡ (b'>', b'>' ∷ [], s)
unfolding token_gt
token_gt-NotGt [] n = refl
token_gt-NotGt (c ∷ s) n = rw n

-- gettoken takes the first token.
pub gettoken-Toks : {s : List ℕ} {t : Tok} {ts : List Tok} → Toks s (t ∷ ts) → Next s t ts
unfolding gettoken strchr_has
gettoken-Toks (space {c} h r) =
    let n = gettoken-Toks r in record { rest = n.rest; taken = rw h n.taken; others = n.others }
gettoken-Toks (single {t = bar} i e r) = record {
  rest = _;
  taken = rw e;
  others = skip_space-Toks r;
}
gettoken-Toks (single {t = lparen} i e r) = record {
  rest = _;
  taken = rw e;
  others = skip_space-Toks r;
}
gettoken-Toks (single {t = rparen} i e r) = record {
  rest = _;
  taken = rw e;
  others = skip_space-Toks r;
}
gettoken-Toks (single {t = semi} i e r) = record {
  rest = _;
  taken = rw e;
  others = skip_space-Toks r;
}
gettoken-Toks (single {t = amp} i e r) = record {
  rest = _;
  taken = rw e;
  others = skip_space-Toks r;
}
gettoken-Toks (single {t = lt} i e r) = record {
  rest = _;
  taken = rw e;
  others = skip_space-Toks r;
}
gettoken-Toks (single {t = gt} i e r) = absurd i
gettoken-Toks (single {t = append} i e r) = absurd i
gettoken-Toks (single {t = word w} i e r) = absurd i
gettoken-Toks (more {s} e n r) = record {
  rest = skip_space s;
  taken = rw (e, token_gt-NotGt s n);
  others = skip_space-Toks r;
}
gettoken-Toks (twice e d r) = record { rest = _; taken = rw (e, d); others = skip_space-Toks r }
gettoken-Toks (plain {c} {w} {s} {t} p h e n r) = record {
  rest = skip_space s;
  taken = rw (
    not_space c p,
    (not_operator c p).0,
    (not_operator c p).1,
    e,
    take_word-Plain (c ∷ w) s (p, h) n,
  );
  others = skip_space-Toks r;
}

-- The end of a text.
pub skip_space-end : {s : List ℕ} {ts : List Tok} → ts ≡ [] → Toks s ts → skip_space s ≡ []
unfolding skip_space
skip_space-end e stop = refl
skip_space-end e (space h r) = rw h (skip_space-end e r)
skip_space-end e (single i d r) = absurd (cc)
skip_space-end e (more d n r) = absurd (cc)
skip_space-end e (twice d d' r) = absurd (cc)
skip_space-end e (plain p h d n r) = absurd (cc)

abbrev pub view : List ℕ → List Tok → Bool
view set [] = false
view set (t ∷ ts) = shows set t

-- peek tells whether the next token is in the set.
pub peek-Toks :
    (set : List ℕ) {s : List ℕ} (ts : List Tok)
    → NoWord set
    → Toks s ts
    → peek s set ≡ (view set ts, skip_space s)
unfolding peek sees
peek-Toks set [] none_in r = rw (skip_space-end refl r)
peek-Toks set (t ∷ ts) none_in r = rw (sees-Toks set none_in r)

pub gettoken-end : {s : List ℕ} → Toks s [] → gettoken (skip_space s) ≡ (0, [], [])
unfolding gettoken skip_space
gettoken-end {s} r = rw (skip_space-end refl r)

-- Every token takes a byte.
pub length-Toks : {s : List ℕ} {ts : List Tok} → Toks s ts → length ts ≤ length s
length-Toks stop = omega arith
length-Toks (space h r) = let ih = length-Toks r in omega arith
length-Toks (single i d r) = let ih = length-Toks r in omega arith
length-Toks (more d n r) = let ih = length-Toks r in omega arith
length-Toks (twice d d' r) = let ih = length-Toks r in omega arith
length-Toks (plain {w} {s} p h d n r) =
    let ih = length-Toks r in omega (arith, ap length d, length-append w s)
