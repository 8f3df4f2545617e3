-- ===== src/Print/Digits.antt =====
-- The digits that printint of w3/kernel/printf.c prints.
use os_t.Prelude.{
  ℕ, zero, suc, ◌+◌, ◌-◌, ◌*◌, ◌/◌, ◌%◌, ◌≤◌, ◌<◌, ◌≡◌, ◌≢◌, refl, ap, ◌∙◌, ◌⊎◌, inl, inr, Bool,
  true, false, ◌&&◌, Option, some, List, [], ◌∷◌, if◌then◌else◌, ◌==◌, leb, Bool-cases, arith,
}
use os_t.Print.{digit, range, digit_loop, add_sign, is_negative, printint}
use os_t.Ulib.{is_digit, atoi_loop, atoi}

abbrev pub pow : ℕ → ℕ → ℕ
pow base zero = 1
pow base (suc k) = base * pow base k

abbrev pub undigit : ℕ → ℕ
undigit c = if leb c b'9' then c - b'0' else c - b'a' + 10

-- The number that digits stand for, behind others that stand for `acc`.
unfoldable pub value : ℕ → ℕ → List ℕ → ℕ
value base acc [] = acc
value base acc (c ∷ s) = value base (acc * base + undigit c) s

abbrev pub IsDigit : ℕ → ℕ → Type 0
IsDigit base c = (d : ℕ) × (d < base) × (c ≡ digit d)

abbrev pub AllDigits : ℕ → List ℕ → Type 0
AllDigits base [] = Unit {0}
AllDigits base (c ∷ s) = IsDigit base c × AllDigits base s

-- There is a digit, and a zero is the first one only where it is alone.
abbrev pub Canonical : List ℕ → Type 0
Canonical [] = ⊥
Canonical (c ∷ s) = (c ≢ b'0') ⊎ (s ≡ [])

-- What the loop over the digits leaves: the digits of a number in front of those in the buffer, and so
-- many free slots at least.
pub data Digits (base x spare : ℕ) (buf : List ℕ) : Option (ℕ × List ℕ) → Type 0 where
  digits :
      (room : ℕ) (out : List ℕ)
      → spare ≤ room
      → AllDigits base out
      → Canonical out
      → value base 0 out ≡ value base x buf
      → Digits base x spare buf (some (room, out))

undigit-digit : (d : ℕ) → d < 16 → undigit (digit d) ≡ d
undigit-digit d lt = ground arith

module _ (base : ℕ) (small : (x p : ℕ) → x < base * p → x / base < p)
    (whole : (x : ℕ) → x / base * base + x % base ≡ x) (below : (x : ℕ) → x % base < base)
    (few : base ≤ 16) where
  first_digit : (x : ℕ) → undigit (digit (x % base)) ≡ x % base
  first_digit x = let b = below x in undigit-digit (x % base) (omega arith)

  -- The digit and what is left are the number.
  digit_back : (x : ℕ) → x / base * base + undigit (digit (x % base)) ≡ x
  digit_back x = ap (λ d. x / base * base + d) (first_digit x) ∙ whole x

  first_nonzero :
      (x : ℕ) (buf : List ℕ)
      → x % base ≡ x
      → (x ≢ 0) ⊎ (buf ≡ [])
      → (digit (x % base) ≢ b'0') ⊎ (buf ≡ [])
  first_nonzero x buf one (inl nz) = let b = below x in inl (λ e. nz (ground arith))
  first_nonzero x buf one (inr e) = inr e

  more_digits : (k x : ℕ) → x < pow base (suc k) → (x / base == 0) ≡ false → 0 < k
  more_digits zero x h more = let z = small x 1 h in absurd (ground arith)
  more_digits (suc k) x h more = omega arith

  digit_loop-Digits :
      (room k spare x : ℕ) (buf : List ℕ)
      → k + spare ≡ room
      → 0 < k
      → x < pow base k
      → AllDigits base buf
      → (x ≢ 0) ⊎ (buf ≡ [])
      → Digits base x spare buf (digit_loop room base x buf)
  unfolding digit_loop value
  digit_loop-Digits zero k spare x buf e lt h all nz = absurd (omega arith)
  digit_loop-Digits (suc room) zero spare x buf e lt h all nz = absurd (omega arith)
  digit_loop-Digits (suc room) (suc k) spare x buf e lt h all nz =
      let back = digit_back x in
      elim (Bool-cases (x / base == 0)) [
        | inl last ↦
            let z : x / base ≡ 0 = ground arith in
            let none_left : x / base * base ≡ 0 * base = ap (λ t. t * base) z in
            rw last (
              digits room _ (omega arith) ((x % base, below x, refl), all)
                (first_nonzero x buf (omega arith) nz) (ap (λ n. value base n buf) (omega arith)))
        | inr more ↦ rw more (
            go _ (
              digit_loop-Digits room k spare (x / base) _ (omega arith) (more_digits k x h more)
                (small x (pow base k) h) ((x % base, below x, refl), all) (inl (ground arith))))
      ]
    where
      go :
          (r : Option (ℕ × List ℕ))
          → Digits base (x / base) spare (digit (x % base) ∷ buf) r
          → Digits base x spare buf r
      go r (digits room' out enough chars least e') =
          digits room' out enough chars least (e' ∙ ap (λ n. value base n buf) (digit_back x))

-- What printint prints: the digits of a number, or a minus and those of its absolute value.
pub data Printed (base xx : ℕ) (sign : Bool) : Option (List ℕ) → Type 0 where
  plain :
      (out : List ℕ)
      → (sign && is_negative xx) ≡ false
      → AllDigits base out
      → Canonical out
      → value base 0 out ≡ xx
      → Printed base xx sign (some out)
  minus :
      (out : List ℕ)
      → (sign && is_negative xx) ≡ true
      → AllDigits base out
      → Canonical out
      → value base 0 out ≡ range - xx
      → Printed base xx sign (some (b'-' ∷ out))

plain-Printed :
    (base xx : ℕ) (sign : Bool) (b : Option (ℕ × List ℕ))
    → (sign && is_negative xx) ≡ false
    → Digits base xx 0 [] b
    → Printed base xx sign (add_sign false b)
unfolding add_sign value
plain-Printed base xx sign b e (digits room out enough chars least v) = plain out e chars least v

minus-Printed :
    (base xx : ℕ) (sign : Bool) (b : Option (ℕ × List ℕ))
    → (sign && is_negative xx) ≡ true
    → Digits base (range - xx) 1 [] b
    → Printed base xx sign (add_sign true b)
unfolding add_sign value
minus-Printed base xx sign b e (digits zero out enough chars least v) = absurd (omega arith)
minus-Printed base xx sign b e (digits (suc room) out enough chars least v) =
    minus out e chars least v

module _ (base : ℕ)
    (loop : (x k spare : ℕ)
      → k + spare ≡ 20
      → 0 < k
      → x < pow base k
      → Digits base x spare [] (digit_loop 20 base x []))
    (all_fit : range ≤ pow base 20) (most_fit : 9223372036854775808 < pow base 19) where
  printint-fits : (xx : ℕ) (sign : Bool) → xx < range → Printed base xx sign (printint xx base sign)
  unfolding printint
  printint-fits xx sign lt = elim (Bool-cases (sign && is_negative xx)) [
    | inl negative ↦
        let high : is_negative xx ≡ true = ground arith in
        let least : 9223372036854775808 ≤ xx = ground arith in
        let small : (range - xx) % range ≡ range - xx = omega arith in
        rw (negative, small)
          (minus-Printed base xx sign _ negative
            (loop (range - xx) 19 1 (omega arith) (omega arith) (omega arith)))
    | inr positive ↦ rw positive (
        plain-Printed base xx sign _ positive
          (loop xx 20 0 (omega arith) (omega arith) (omega arith)))
  ]

-- printint in base 10 or 16 of any value of 64 bits does not write behind its buffer. It prints the digits
-- of the value, or, for a value that is negative and to be printed with its sign, a minus and the digits
-- of its absolute value; there is at least one digit, and no zero in front of others.
pub printint-Printed :
    (xx : ℕ) (sign : Bool)
    → xx < range
    → Printed 10 xx sign (printint xx 10 sign) × Printed 16 xx sign (printint xx 16 sign)
printint-Printed xx sign lt = (
  printint-fits 10
      (λ x k spare e pos h.
        digit_loop-Digits 10 (λ a p less. omega arith) (λ a. omega arith) (λ a. omega arith)
          (omega arith) 20 k spare x [] e pos h tt (inr refl))
      (omega arith) (omega arith) xx sign lt,
  printint-fits 16
      (λ x k spare e pos h.
        digit_loop-Digits 16 (λ a p less. omega arith) (λ a. omega arith) (λ a. omega arith)
          (omega arith) 20 k spare x [] e pos h tt (inr refl))
      (omega arith) (omega arith) xx sign lt,
)

-- What atoi reads from digits is the number that they stand for, in 32 bits.
atoi_loop-value :
    (n m : ℕ) (s : List ℕ)
    → AllDigits 10 s
    → n ≡ m % 4294967296
    → atoi_loop n s ≡ value 10 m s % 4294967296
unfolding atoi_loop value
atoi_loop-value n m [] all e = e
atoi_loop-value n m (c ∷ s) ((d, lt, is), all) e =
    let a : is_digit c ≡ true = ground arith in
    let b : undigit c + 48 ≡ c = ground arith in
    rw a (
      atoi_loop-value ((n * 10 + c + 4294967296 - b'0') % 4294967296) (m * 10 + undigit c) s all
        (omega arith))

-- atoi reads back what printint prints: for any value of 64 bits that is printed in base 10 without a
-- sign, it gives the low 32 bits of the value.
pub atoi-printint :
    (x : ℕ)
    → x < range
    → (out : List ℕ) × (printint x 10 false ≡ some out) × (atoi out ≡ x % 4294967296)
unfolding atoi value
atoi-printint x lt = go (printint x 10 false) (printint-Printed x false lt).0
  where
    go :
        (r : Option (List ℕ))
        → Printed 10 x false r
        → (out : List ℕ) × (r ≡ some out) × (atoi out ≡ x % 4294967296)
    go r (plain out e chars least v) =
        (out, refl, atoi_loop-value 0 0 out chars refl ∙ ap (λ n. n % 4294967296) v)
    go r (minus out e chars least v) = absurd (cc)
