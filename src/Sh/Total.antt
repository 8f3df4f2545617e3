-- ===== src/Sh/Total.antt =====
-- The parser of w3/user/sh.c ends on every text.
use os_t.Prelude.{
  ℕ, zero, suc, ◌+◌, ◌*◌, ◌≤◌, ◌<◌, ◌≡◌, ◌≢◌, refl, ◌⊎◌, inl, inr, Bool, true, false, ◌||◌, not,
  List, [], ◌∷◌, length, if◌then◌else◌, ◌==◌, leb, Bool-cases, arith,
}
use Prim.Native.Nat.{suc-le-suc}
use native.Mathlib.Nat.{le_trans}
use os_t.Prelude.Run.{ok, panic, out_of_fuel, ◌>>=◌}
use os_t.Sh.Lex.{
  strchr_has, whitespace, symbols, skip_space, take_word, token_gt, token, gettoken, sees, peek,
}
use os_t.Sh.Parse.{
  Cmd, exec, pipe, list, back, max_args, Parsed, parseredirs, add_arg, parse_args, parse_backs,
  parseline, parsepipe, parseblock, parseexec, whole, parsecmd,
}

skip_space-le : (s : List ℕ) → length (skip_space s) ≤ length s
unfolding skip_space
skip_space-le [] = omega arith
skip_space-le (c ∷ s) = ground (arith, skip_space-le s)

take_word-le : (s : List ℕ) → length (take_word s).1 ≤ length s
unfolding take_word
take_word-le [] = omega arith
take_word-le (c ∷ s) = ground (arith, take_word-le s)

token_gt-le : (s : List ℕ) → length (token_gt s).2 ≤ length s
unfolding token_gt
token_gt-le [] = omega arith
token_gt-le (c ∷ s) = ground arith

-- What is neither a space nor takes a branch of the switch starts a word.
word_byte :
    (c : ℕ)
    → strchr_has whitespace c ≡ false
    → (c == b'|' || c == b'(' || c == b')' || c == b';' || c == b'&' || c == b'<') ≡ false
    → (c == b'>') ≡ false
    → (strchr_has whitespace c || strchr_has symbols c) ≡ false
unfolding strchr_has
word_byte c w o g = ground arith

-- A token takes at least its first byte.
token-cons :
    (c : ℕ) (s : List ℕ) → strchr_has whitespace c ≡ false → length (token (c ∷ s)).2 ≤ length s
unfolding token take_word
token-cons c s w =
    elim (Bool-cases (c == b'|' || c == b'(' || c == b')' || c == b';' || c == b'&' || c == b'<')) [
      | inl o ↦ rw o (omega arith)
      | inr o ↦ elim (Bool-cases (c == b'>')) [
        | inl g ↦ rw (o, g) (token_gt-le s)
        | inr g ↦ rw (o, g, word_byte c w o g) (take_word-le s)
      ]
    ]

gettoken-cons :
    (c : ℕ) (s : List ℕ) → strchr_has whitespace c ≡ false → length (gettoken (c ∷ s)).2 ≤ length s
unfolding gettoken
gettoken-cons c s w = rw w (le_trans (skip_space-le (token (c ∷ s)).2) (token-cons c s w))

-- A trimmed text is at its end, or its first token takes a byte.
front : (s : List ℕ) → (skip_space s ≡ []) ⊎ (length (gettoken (skip_space s)).2 < length s)
unfolding skip_space
front [] = inl refl
front (c ∷ s) = elim (Bool-cases (strchr_has whitespace c)) [
  | inl w ↦ rw w (elim (front s) [ inl e ↦ inl e | inr h ↦ inr (omega arith) ])
  | inr w ↦ rw w (inr (suc-le-suc (gettoken-cons c s w)))
]

gettoken-le : (s : List ℕ) → length (gettoken s).2 ≤ length s
unfolding gettoken
gettoken-le [] = omega arith
gettoken-le (c ∷ s) = elim (Bool-cases (strchr_has whitespace c)) [
  | inl w ↦ rw w (le_trans (gettoken-le s) (omega arith))
  | inr w ↦ le_trans (gettoken-cons c s w) (omega arith)
]

-- peek trims the text, and finds nothing at its end.
peek_trims : (s set : List ℕ) → (peek s set).1 ≡ skip_space s
unfolding peek
peek_trims s set = refl

peek_end : (s set : List ℕ) → skip_space s ≡ [] → (peek s set).0 ≡ false
unfolding peek sees
peek_end s set e = rw e

gettoken_end : gettoken [] ≡ (0, [], [])
unfolding gettoken
gettoken_end = refl

-- The parse ends with a command and a text of at most `n` bytes, or is refused.
data Within (n : ℕ) : Parsed → Type 0 where
  parsed : (cmd : Cmd) (s : List ℕ) → length s ≤ n → Within n (ok (cmd, s))
  refused : Within n panic

Within-bind :
    {n m : ℕ} {r : Parsed} (k : Cmd × List ℕ → Parsed)
    → Within n r
    → ((cmd : Cmd) (s : List ℕ) → length s ≤ n → Within m (k (cmd, s)))
    → Within m (r >>= k)
Within-bind k (parsed cmd s h) then_within = then_within cmd s h
Within-bind k refused then_within = refused

Within-le : {n m : ℕ} {r : Parsed} → n ≤ m → Within n r → Within m r
Within-le le (parsed cmd s h) = parsed cmd s (omega arith)
Within-le le refused = refused

Within-if :
    {n : ℕ} (b : Bool) {x y : Parsed}
    → (b ≡ true → Within n x)
    → Within n y
    → Within n (if b then x else y)
Within-if true hx hy = hx refl
Within-if false hx hy = hy

-- A text in which peek finds a byte.
found : (s set : List ℕ) → (peek s set).0 ≡ true → length (gettoken (peek s set).1).2 < length s
found s set e =
    rw (peek_trims s set)
      (elim (front s) [ inl at_end ↦ absurd (cc (peek_end s set at_end)) | inr h ↦ h ])

trimmed : (s set : List ℕ) → length (peek s set).1 ≤ length s
trimmed s set = rw (peek_trims s set) (skip_space-le s)

parseredirs-Within :
    (f : ℕ) (cmd : Cmd) (s : List ℕ) → length s < f → Within (length s) (parseredirs f cmd s)
unfolding parseredirs
parseredirs-Within zero cmd s h = absurd (omega arith)
parseredirs-Within (suc f) cmd s h =
    let set : List ℕ = b'<' ∷ b'>' ∷ [] in
    let s2 = (gettoken (peek s set).1).2 in
    let s3 = (gettoken s2).2 in
    Within-if (peek s set).0
      (λ e.
        let shorter = found s set e in
        let le = gettoken-le s2 in
        Within-if ((gettoken s2).0 == b'a')
          (λ _. Within-le (omega arith) (parseredirs-Within f _ s3 (omega arith))) refused)
      (parsed cmd _ (trimmed s set))

parse_args-Within :
    (f argc : ℕ) (ret : Cmd) (s : List ℕ)
    → length s < f
    → Within (length s) (parse_args f argc ret s)
unfolding parse_args
parse_args-Within zero argc ret s h = absurd (omega arith)
parse_args-Within (suc f) argc ret s h =
    let set : List ℕ = b'|' ∷ b')' ∷ b'&' ∷ b';' ∷ [] in
    let s1 = (peek s set).1 in
    let word = (gettoken s1).1 in
    let s2 = (gettoken s1).2 in
    let le = trimmed s set in
    Within-if (peek s set).0 (λ _. parsed ret s1 le)
      (elim (front s) [
        | inl at_end ↦ rw (peek_trims s set, at_end, gettoken_end) (parsed ret [] (omega arith))
        | inr shorter ↦
            let less : length s2 < length s = rw (peek_trims s set) shorter in
            Within-if ((gettoken s1).0 == 0) (λ _. parsed ret s2 (omega arith))
              (Within-if (not ((gettoken s1).0 == b'a')) (λ _. refused)
                (Within-if (leb max_args (argc + 1)) (λ _. refused)
                  (Within-bind _ (parseredirs-Within f (add_arg word ret) s2 (omega arith))
                    λ ret' s3 h3.
                      Within-le (omega arith)
                        (parse_args-Within f (argc + 1) ret' s3 (omega arith)))))
      ])

parse_backs-Within :
    (f : ℕ) (cmd : Cmd) (s : List ℕ) → length s < f → Within (length s) (parse_backs f cmd s)
unfolding parse_backs
parse_backs-Within zero cmd s h = absurd (omega arith)
parse_backs-Within (suc f) cmd s h =
    let set : List ℕ = b'&' ∷ [] in
    Within-if (peek s set).0
      (λ e.
        let shorter = found s set e in
        Within-le (omega arith) (parse_backs-Within f (back cmd) _ (omega arith)))
      (parsed cmd _ (trimmed s set))

-- Four units of fuel for a byte, and three, are enough: each byte that a call takes pays for the four
-- calls that lead to it again.
mutual
  unfolding parseline

  parseline-Within : (f : ℕ) (s : List ℕ) → 4 * length s + 3 < f → Within (length s) (parseline f s)
  parseline-Within zero s h = absurd (omega arith)
  parseline-Within (suc f) s h = Within-bind _ (parsepipe-Within f s (omega arith)) λ first s1 h1.
      Within-bind _ (parse_backs-Within f first s1 (omega arith)) λ cmd s2 h2.
        let set : List ℕ = b';' ∷ [] in
        Within-if (peek s2 set).0
          (λ e.
            let shorter = found s2 set e in
            Within-bind _ (parseline-Within f (gettoken (peek s2 set).1).2 (omega arith))
              λ right s4 h4. parsed (list cmd right) s4 (omega arith))
          (let le = trimmed s2 set in parsed cmd _ (omega arith))

  parsepipe-Within : (f : ℕ) (s : List ℕ) → 4 * length s + 2 < f → Within (length s) (parsepipe f s)
  parsepipe-Within zero s h = absurd (omega arith)
  parsepipe-Within (suc f) s h = Within-bind _ (parseexec-Within f s (omega arith)) λ cmd s1 h1.
      let set : List ℕ = b'|' ∷ [] in
      Within-if (peek s1 set).0
        (λ e.
          let shorter = found s1 set e in
          Within-bind _ (parsepipe-Within f (gettoken (peek s1 set).1).2 (omega arith))
            λ right s3 h3. parsed (pipe cmd right) s3 (omega arith))
        (let le = trimmed s1 set in parsed cmd _ (omega arith))

  parseblock-Within : (f : ℕ) (s : List ℕ) → 4 * length s < f → Within (length s) (parseblock f s)
  parseblock-Within zero s h = absurd (omega arith)
  parseblock-Within (suc f) s h =
      let set : List ℕ = b'(' ∷ [] in
      Within-if (peek s set).0
        (λ e.
          let shorter = found s set e in
          Within-bind _ (parseline-Within f (gettoken (peek s set).1).2 (omega arith)) λ cmd s2 h2.
            let close : List ℕ = b')' ∷ [] in
            Within-if (peek s2 close).0
              (λ e2.
                let shorter2 = found s2 close e2 in
                Within-le (omega arith) (parseredirs-Within f cmd _ (omega arith)))
              refused)
        refused

  parseexec-Within : (f : ℕ) (s : List ℕ) → 4 * length s + 1 < f → Within (length s) (parseexec f s)
  parseexec-Within zero s h = absurd (omega arith)
  parseexec-Within (suc f) s h =
      let set : List ℕ = b'(' ∷ [] in
      let le = trimmed s set in
      Within-if (peek s set).0 (λ _. Within-le le (parseblock-Within f _ (omega arith)))
        (Within-bind _ (parseredirs-Within f (exec []) _ (omega arith))
          λ ret s2 h2. Within-le (omega arith) (parse_args-Within f 0 ret s2 (omega arith)))

whole_ends : (cmd : Cmd) (s : List ℕ) → whole cmd s ≢ out_of_fuel
unfolding whole
whole_ends cmd [] e = cc
whole_ends cmd (c ∷ s) e = cc

ends :
    {n : ℕ} {r : Parsed} → Within n r → (r >>= λ (cmd, s1). whole cmd (peek s1 []).1) ≢ out_of_fuel
ends (parsed cmd s h) e = whole_ends cmd (peek s []).1 e
ends refused e = cc

-- parsecmd ends on every text, with a command or a panic: its fuel does not run out.
pub parsecmd_ends : (s : List ℕ) → parsecmd s ≢ out_of_fuel
unfolding parsecmd
parsecmd_ends s = ends (parseline-Within (4 * length s + 8) s (omega arith))
