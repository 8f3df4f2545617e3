-- ===== src/Grep/Correct.antt =====
-- match, matchhere and matchstar of w3/user/grep.c decide the relations.
use os_t.Prelude.{
  ℕ, ◌≡◌, refl, sym, subst, ap, ◌∙◌, ◌≢◌, ◌↔◌, ◌⊎◌, inl, inr, Bool, true, false, ◌||◌, List, [],
  ◌∷◌, ◌++◌, arith, ◌==◌, Bool-cases, ==_iff,
}
use mathlib.Core.Bool.{false≢true}
use os_t.Grep.{matchstar, is_end, match_char, matchhere, match_from, match}
use os_t.Grep.Relation.{
  Accepts, NoStar, NoDollar, Here, nothing, dollar, char, star_none, star_more, Somewhere,
}

accepts : (r t : ℕ) → (r == b'.' || r == t) ≡ true → Accepts r t
accepts r t h = elim (Bool-cases (r == b'.')) [
  | inl dot ↦ inl (ground arith)
  | inr letter ↦ inr (ground arith)
]

Accepts-swap : (r t : ℕ) → (t == r || r == b'.') ≡ true → Accepts r t
Accepts-swap r t h = elim (Bool-cases (r == b'.')) [
  | inl dot ↦ inl (ground arith)
  | inr letter ↦ inr (ground arith)
]

matchstar_sound :
    (re : List ℕ) (r s : ℕ)
    → s ≡ b'*'
    → ((text : List ℕ) → matchhere re text ≡ true → Here re text)
    → (text : List ℕ) → matchstar (matchhere re) r text ≡ true
    → Here (r ∷ s ∷ re) text
unfolding matchstar
matchstar_sound re r s e ih [] h = star_none e (ih [] h)
matchstar_sound re r s e ih (t ∷ text) h = elim (Bool-cases (matchhere re (t ∷ text))) [
  | inl now ↦ star_none e (ih (t ∷ text) now)
  | inr later ↦
      star_more e (Accepts-swap r t (ground arith))
        (matchstar_sound re r s e ih text (ground arith))
]

match_char_sound :
    (re : List ℕ) (r : ℕ)
    → NoStar re
    → NoDollar r re
    → ((text : List ℕ) → matchhere re text ≡ true → Here re text)
    → (text : List ℕ) → match_char (matchhere re) r text ≡ true
    → Here (r ∷ re) text
match_char_sound re r ns nd ih [] h = absurd (cc)
match_char_sound re r ns nd ih (t ∷ text) h =
    char ns nd (accepts r t (ground arith)) (ih text (ground arith))

last : (r : ℕ) (text : List ℕ) → r ≡ b'$' → is_end text ≡ true → Here (r ∷ []) text
last r [] d e = dollar r d
last r (x ∷ text) d e = absurd (false≢true e)

matchhere_sound : (re text : List ℕ) → matchhere re text ≡ true → Here re text
unfolding matchhere
matchhere_sound [] text h = nothing text
matchhere_sound (r ∷ []) text h = elim (Bool-cases (r == b'$')) [
  | inl d ↦ last r text ((==_iff r b'$').0 d) (rw d at h)
  | inr n ↦ match_char_sound [] r tt (ground arith) (λ t _. nothing t) text (rw n at h)
]
matchhere_sound (r ∷ s ∷ re) text h = elim (Bool-cases (s == b'*')) [
  | inl star ↦
      matchstar_sound re r s (ground arith) (λ t e. matchhere_sound re t e) text (rw star at h)
  | inr n ↦
      match_char_sound (s ∷ re) r (ground arith) tt (λ t e. matchhere_sound (s ∷ re) t e) text
        (rw n at h)
]

matchstar-now :
    (f : List ℕ → Bool) (c : ℕ) (text : List ℕ) → f text ≡ true → matchstar f c text ≡ true
unfolding matchstar
matchstar-now f c [] e = e
matchstar-now f c (t ∷ text) e = rw e refl

-- One more character for the star.
matchstar-more :
    (f : List ℕ → Bool) (c t : ℕ) (text : List ℕ)
    → Accepts c t
    → matchstar f c text ≡ true
    → matchstar f c (t ∷ text) ≡ true
unfolding matchstar
matchstar-more f c t text a e = elim (Bool-cases (f (t ∷ text))) [
  | inl now ↦ rw now refl
  | inr later ↦ ground arith
]

match_char_complete :
    (f : List ℕ → Bool) (r t : ℕ) (text : List ℕ)
    → Accepts r t
    → f text ≡ true
    → match_char f r (t ∷ text) ≡ true
match_char_complete f r t text a e = ground arith

char_case :
    (r t : ℕ) (re text : List ℕ)
    → NoStar re
    → NoDollar r re
    → Accepts r t
    → matchhere re text ≡ true
    → matchhere (r ∷ re) (t ∷ text) ≡ true
unfolding matchhere
char_case r t [] text ns nd a e =
    let n : (r == b'$') ≡ false = ground arith in
    rw n (match_char_complete (matchhere []) r t text a refl)
char_case r t (s ∷ re) text ns nd a e =
    let n : (s == b'*') ≡ false = ground arith in
    rw n (match_char_complete (matchhere (s ∷ re)) r t text a e)

star_case :
    (r s : ℕ) (re text : List ℕ)
    → s ≡ b'*'
    → matchhere (r ∷ s ∷ re) text ≡ matchstar (matchhere re) r text
unfolding matchhere
star_case r s re text e = let y : (s == b'*') ≡ true = ground arith in rw y refl

matchhere_complete : {re text : List ℕ} → Here re text → matchhere re text ≡ true
unfolding matchhere
matchhere_complete (nothing text) = refl
matchhere_complete (dollar r e) = ground arith
matchhere_complete (char {r} {t} {re} {text} ns nd a h) =
    char_case r t re text ns nd a (matchhere_complete h)
matchhere_complete (star_none {r} {s} {re} {text} e h) =
    star_case r s re text e ∙ matchstar-now (matchhere re) r text (matchhere_complete h)
matchhere_complete (star_more {r} {s} {t} {re} {text} e a h) =
    star_case r s re (t ∷ text) e
    ∙ matchstar-more (matchhere re) r t text a
        (sym (star_case r s re text e) ∙ matchhere_complete h)

-- matchhere returns true exactly where the expression matches at the beginning of the text.
pub matchhere_iff : (re text : List ℕ) → (matchhere re text ≡ true) ↔ Here re text
matchhere_iff re text = (matchhere_sound re text, matchhere_complete)

match_from_sound : (re text : List ℕ) → match_from re text ≡ true → Somewhere re text
unfolding match_from
match_from_sound re [] h = ([], [], refl, matchhere_sound re [] h)
match_from_sound re (t ∷ text) h = elim (Bool-cases (matchhere re (t ∷ text))) [
  | inl now ↦ ([], t ∷ text, refl, matchhere_sound re (t ∷ text) now)
  | inr later ↦
      let (before, after, e, m) = match_from_sound re text (rw later at h) in
      (t ∷ before, after, ap (λ l. t ∷ l) e, m)
]

match_from_complete :
    (re before after : List ℕ) → Here re after → match_from re (before ++ after) ≡ true
unfolding match_from
match_from_complete re [] [] h = matchhere_complete h
match_from_complete re [] (t ∷ after) h = rw (matchhere_complete h) refl
match_from_complete re (b ∷ before) after h =
    elim (Bool-cases (matchhere re (b ∷ before ++ after))) [
      | inl now ↦ rw now refl
      | inr later ↦ rw later (match_from_complete re before after h)
    ]

match_from_iff : (re text : List ℕ) → (match_from re text ≡ true) ↔ Somewhere re text
match_from_iff re text = (
  match_from_sound re text,
  λ (before, after, e, h).
      subst (λ l. match_from re l ≡ true) (sym e) (match_from_complete re before after h),
)

-- What the whole expression means: behind a caret at the beginning, otherwise anywhere.
abbrev pub Matches : List ℕ → List ℕ → Type 0
Matches [] text = Somewhere [] text
Matches (r ∷ re) text = ((r ≡ b'^') × Here re text) ⊎ ((r ≢ b'^') × Somewhere (r ∷ re) text)

-- match returns true exactly where the expression matches the text.
pub match_iff : (re text : List ℕ) → (match re text ≡ true) ↔ Matches re text
unfolding match
match_iff [] text = match_from_iff [] text
match_iff (r ∷ re) text = elim (Bool-cases (r == b'^')) [
  | inl caret ↦
      let e : r ≡ b'^' = (==_iff r b'^').0 caret in
      (
        λ h. inl (e, matchhere_sound re text (rw caret at h)),
        elim [ inl (_, m) ↦ rw caret (matchhere_complete m) | inr (ne, _) ↦ absurd (ne e) ],
      )
  | inr free ↦
      let ne : r ≢ b'^' = ground arith in
      (
        λ h. inr (ne, match_from_sound (r ∷ re) text (rw free at h)),
        elim [
          | inl (e, _) ↦ absurd (ne e)
          | inr (_, m) ↦ rw free ((match_from_iff (r ∷ re) text).1 m)
        ],
      )
]
