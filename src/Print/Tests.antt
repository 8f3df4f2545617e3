-- ===== src/Print/Tests.antt =====
-- Runs of w3/kernel/printf.c.
use os_t.Prelude.{ℕ, ◌-◌, ◌≡◌, refl, true, false, none, some, List, [], ◌∷◌, arith}
use os_t.Console.{consputc}
use os_t.Ulib.{atoi}
use os_t.Print.{
  range, digit_loop, add_sign, printint, word, text, directive, expand, print_loop, printf,
}
use os_t.Print.Digits.{Printed, printint-Printed, atoi-printint}
use os_t.Print.Format.{Piece, plain, ask, d, lx, s, spell, meaning, printf-meaning}

-- -2 ^ 63, which takes all 20 bytes of the buffer.
least :
    printint 9223372036854775808 10 true
    ≡ some (
        b'-' ∷ b'9' ∷ b'2' ∷ b'2' ∷ b'3' ∷ b'3' ∷ b'7' ∷ b'2' ∷ b'0' ∷ b'3' ∷ b'6' ∷ b'8' ∷ b'5'
        ∷ b'4' ∷ b'7' ∷ b'7' ∷ b'5' ∷ b'8' ∷ b'0' ∷ b'8' ∷ [])
unfolding printint digit_loop add_sign
least = refl

-- "%s=%d%" with a name and -1.
setting :
    printf
      (b'%' ∷ b's' ∷ b'=' ∷ b'%' ∷ b'd' ∷ b'%' ∷ [])
      (text (some (b'n' ∷ [])) ∷ word 4294967295 ∷ [])
    ≡ some (b'n' ∷ b'=' ∷ b'-' ∷ b'1' ∷ [])
unfolding printf print_loop directive expand printint digit_loop add_sign consputc
setting = refl

printint-Printed_example :
    Printed 10 (range - 26) true (printint (range - 26) 10 true)
    × Printed 16 (range - 26) true (printint (range - 26) 16 true)
printint-Printed_example = printint-Printed (range - 26) true (omega arith)

atoi-printint_example : (out : List ℕ) × (printint 4294967338 10 false ≡ some out) × (atoi out ≡ 42)
atoi-printint_example = atoi-printint 4294967338 (omega arith)

abbrev pieces : List Piece
pieces = plain b'a' ∷ ask lx ∷ plain b'l' ∷ ask s ∷ ask d ∷ []

printf-meaning_example :
    printf (spell pieces) (word 255 ∷ text none ∷ word 7 ∷ [])
    ≡ meaning pieces (word 255 ∷ text none ∷ word 7 ∷ [])
printf-meaning_example = printf-meaning pieces (word 255 ∷ text none ∷ word 7 ∷ []) (omega arith)
