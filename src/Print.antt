-- ===== src/Print.antt =====
-- w3/kernel/printf.c: printint, printptr and the format loop of printf. A value of 64 bits is the number of
-- its bits, a C string is the list of its bytes before the NUL, and what is printed is the list of the
-- bytes that consputc sends. The lock of printf is left out.
pub mod Digits
pub mod Format
mod Tests
use os_t.Prelude.{
  ℕ, zero, suc, ◌+◌, ◌-◌, ◌*◌, ◌/◌, ◌%◌, Bool, true, false, ◌&&◌, Option, none, some, List, [], ◌∷◌,
  ◌++◌, map, if◌then◌else◌, ◌==◌, ltb, leb,
}
use os_t.Console.{consputc}

-- digits[d]
abbrev pub digit : ℕ → ℕ
digit d = if ltb d 10 then b'0' + d else b'a' + (d - 10)

-- 2 ^ 64 and 2 ^ 32
abbrev pub range : ℕ
range = 18446744073709551616

abbrev pub int_range : ℕ
int_range = 4294967296

-- The slots that are left in `buf`, and the bytes in it, the last one first. `none` stands for a write
-- behind its end.
abbrev pub Buffer : Type 0
Buffer = Option (ℕ × List ℕ)

-- The loop over the digits.
unfoldable pub digit_loop : ℕ → ℕ → ℕ → List ℕ → Buffer
digit_loop zero base x buf = none
digit_loop (suc room) base x buf =
    let buf' = digit (x % base) ∷ buf in
    let rest = digit_loop room base (x / base) buf' in
    if x / base == 0 then some (room, buf') else rest

unfoldable pub add_sign : Bool → Buffer → Option (List ℕ)
add_sign sign none = none
add_sign false (some (room, buf)) = some buf
add_sign true (some (zero, buf)) = none
add_sign true (some (suc room, buf)) = some (b'-' ∷ buf)

abbrev pub is_negative : ℕ → Bool
is_negative xx = leb 9223372036854775808 xx

-- printint: what it prints, or `none` where it would write behind the 20 bytes of its buffer.
unfoldable pub printint : ℕ → ℕ → Bool → Option (List ℕ)
printint xx base sign =
    let negative = sign && is_negative xx in
    let x = if negative then (range - xx) % range else xx in
    add_sign negative (digit_loop 20 base x [])

-- The loop of printptr: the highest hexadecimal digit first.
unfoldable pub pointer_loop : ℕ → ℕ → List ℕ
pointer_loop zero x = []
pointer_loop (suc n) x = digit (x / 1152921504606846976) ∷ pointer_loop n (x * 16 % range)

pub printptr : ℕ → List ℕ
printptr x = b'0' ∷ b'x' ∷ pointer_loop 16 x

-- What a va_arg reads: a word, or a pointer to a string, `none` for 0.
pub data Arg : Type 0 where
  word : ℕ → Arg
  text : Option (List ℕ) → Arg

-- An int as a long long.
abbrev pub sign_extend : ℕ → ℕ
sign_extend v =
    let low = v % int_range in if leb 2147483648 low then low + (range - int_range) else low

-- What a sequence behind a `%` asks for.
pub data Directive : Type 0 where
  signed : Bool → Directive
  unsigned : ℕ → Bool → Directive
  pointer : Directive
  char : Directive
  string : Directive
  percent : Directive
  stop : Directive
  unknown : ℕ → Directive

-- The tests on c0, c1 and c2, and what is added to `i`. A `long` argument has the Boolean `true`.
unfoldable pub directive : ℕ → ℕ → ℕ → Directive × ℕ
directive c0 c1 c2 =
    if c0 == b'd'
    then (signed false, 0)
    else if c0 == b'l' && c1 == b'd'
    then (signed true, 1)
    else if c0 == b'l' && (c1 == b'l' && c2 == b'd')
    then (signed true, 2)
    else if c0 == b'u'
    then (unsigned 10 false, 0)
    else if c0 == b'l' && c1 == b'u'
    then (unsigned 10 true, 1)
    else if c0 == b'l' && (c1 == b'l' && c2 == b'u')
    then (unsigned 10 true, 2)
    else if c0 == b'x'
    then (unsigned 16 false, 0)
    else if c0 == b'l' && c1 == b'x'
    then (unsigned 16 true, 1)
    else if c0 == b'l' && (c1 == b'l' && c2 == b'x')
    then (unsigned 16 true, 2)
    else if c0 == b'p'
    then (pointer, 0)
    else if c0 == b'c'
    then (char, 0)
    else if c0 == b's'
    then (string, 0)
    else if c0 == b'%'
    then (percent, 0)
    else if c0 == 0
    then (stop, 0)
    else (unknown c0, 0)

abbrev pub with_args : List Arg → Option (List ℕ) → Option (List ℕ × List Arg)
with_args args none = none
with_args args (some out) = some (out, args)

-- What a directive prints, and the arguments behind it; `none` where an argument is missing or of
-- another type.
unfoldable pub expand : Directive → List Arg → Option (List ℕ × List Arg)
expand (signed long) (word v ∷ args) =
    with_args args (printint (if long then v else sign_extend v) 10 true)
expand (unsigned base long) (word v ∷ args) =
    with_args args (printint (if long then v else v % int_range) base false)
expand pointer (word v ∷ args) = some (printptr v, args)
expand char (word v ∷ args) = some (map (λ b. b % 256) (consputc (v % int_range)), args)
expand string (text (some s) ∷ args) = some (s, args)
expand string (text none ∷ args) = some (b'(' ∷ b'n' ∷ b'u' ∷ b'l' ∷ b'l' ∷ b')' ∷ [], args)
expand percent args = some (b'%' ∷ [], args)
expand stop args = some ([], args)
expand (unknown c) args = some (b'%' ∷ c ∷ [], args)
expand d args = none

-- The byte at an index of a string, and 0 at its end.
abbrev pub at : List ℕ → ℕ
at [] = 0
at (c ∷ s) = c

abbrev pub after : List ℕ → List ℕ
after [] = []
after (c ∷ s) = s

abbrev pub before_rest : List ℕ → Option (List ℕ) → Option (List ℕ)
before_rest out none = none
before_rest out (some rest) = some (out ++ rest)

-- What a directive prints, and what is printed behind it.
abbrev pub follow : Option (List ℕ × List Arg) → (List Arg → Option (List ℕ)) → Option (List ℕ)
follow none print = none
follow (some (out, args)) print = before_rest out (print args)

-- The format loop, with a number of bytes to pass over that are part of a directive: what is printed.
unfoldable pub print_loop : List ℕ → ℕ → List Arg → Option (List ℕ)
print_loop [] skip args = some []
print_loop (cx ∷ fmt) (suc skip) args = print_loop fmt skip args
print_loop (cx ∷ fmt) zero args =
    let (d, extra) = directive (at fmt) (at (after fmt)) (at (after (after fmt))) in
    if cx == b'%'
    then follow (expand d args) (λ args'. print_loop fmt (suc extra) args')
    else before_rest (consputc cx) (print_loop fmt 0 args)

unfoldable pub printf : List ℕ → List Arg → Option (List ℕ)
printf fmt args = print_loop fmt 0 args
