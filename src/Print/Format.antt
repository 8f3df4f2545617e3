-- ===== src/Print/Format.antt =====
-- The format strings of printf of w3/kernel/printf.c as sequences of pieces.
use os_t.Prelude.{
  ℕ, ◌≡◌, ◌≢◌, refl, ap, ◌∙◌, fun_ext, true, false, Option, some, List, [], ◌∷◌, ◌++◌, ◌==◌, arith,
}
use os_t.Console.{consputc}
use os_t.Print.{
  Arg, Directive, signed, unsigned, pointer, char, string, percent, directive, expand, before_rest,
  follow, print_loop, printf,
}

-- The conversions of printf by their letters; `pct` is `%%`.
pub data Conversion : Type 0 where
  d : Conversion
  ld : Conversion
  lld : Conversion
  u : Conversion
  lu : Conversion
  llu : Conversion
  x : Conversion
  lx : Conversion
  llx : Conversion
  p : Conversion
  c : Conversion
  s : Conversion
  pct : Conversion

abbrev pub spelling : Conversion → List ℕ
spelling d = b'd' ∷ []
spelling ld = b'l' ∷ b'd' ∷ []
spelling lld = b'l' ∷ b'l' ∷ b'd' ∷ []
spelling u = b'u' ∷ []
spelling lu = b'l' ∷ b'u' ∷ []
spelling llu = b'l' ∷ b'l' ∷ b'u' ∷ []
spelling x = b'x' ∷ []
spelling lx = b'l' ∷ b'x' ∷ []
spelling llx = b'l' ∷ b'l' ∷ b'x' ∷ []
spelling p = b'p' ∷ []
spelling c = b'c' ∷ []
spelling s = b's' ∷ []
spelling pct = b'%' ∷ []

abbrev pub asks : Conversion → Directive
asks d = signed false
asks ld = signed true
asks lld = signed true
asks u = unsigned 10 false
asks lu = unsigned 10 true
asks llu = unsigned 10 true
asks x = unsigned 16 false
asks lx = unsigned 16 true
asks llx = unsigned 16 true
asks p = pointer
asks c = char
asks s = string
asks pct = percent

-- A byte to print, or a conversion.
pub data Piece : Type 0 where
  plain : ℕ → Piece
  ask : Conversion → Piece

unfoldable pub spell : List Piece → List ℕ
spell [] = []
spell (plain byte ∷ ps) = byte ∷ spell ps
spell (ask k ∷ ps) = b'%' ∷ spelling k ++ spell ps

-- What the pieces print: each conversion takes the next argument.
unfoldable pub meaning : List Piece → List Arg → Option (List ℕ)
meaning [] args = some []
meaning (plain byte ∷ ps) args = before_rest (byte ∷ []) (meaning ps args)
meaning (ask k ∷ ps) args = follow (expand (asks k) args) (meaning ps)

abbrev pub IsPlain : List Piece → Type 0
IsPlain [] = Unit {0}
IsPlain (plain byte ∷ ps) = (byte ≢ b'%') × (byte ≢ 256) × IsPlain ps
IsPlain (ask k ∷ ps) = IsPlain ps

ask_lem :
    (k : Conversion) (rest : List ℕ) (args : List Arg)
    → print_loop (b'%' ∷ spelling k ++ rest) 0 args
      ≡ follow (expand (asks k) args) (print_loop rest 0)
unfolding print_loop directive
ask_lem d rest args = refl
ask_lem ld rest args = refl
ask_lem lld rest args = refl
ask_lem u rest args = refl
ask_lem lu rest args = refl
ask_lem llu rest args = refl
ask_lem x rest args = refl
ask_lem lx rest args = refl
ask_lem llx rest args = refl
ask_lem p rest args = refl
ask_lem c rest args = refl
ask_lem s rest args = refl
ask_lem pct rest args = refl

plain_lem :
    (byte : ℕ) (fmt : List ℕ) (args : List Arg)
    → byte ≢ b'%'
    → byte ≢ 256
    → print_loop (byte ∷ fmt) 0 args ≡ before_rest (byte ∷ []) (print_loop fmt 0 args)
unfolding print_loop consputc
plain_lem byte fmt args h g =
    let a : (byte == b'%') ≡ false = ground arith in
    let b : (byte == 256) ≡ false = ground arith in rw (a, b) refl

print_loop-meaning :
    (ps : List Piece)
    → IsPlain ps
    → (args : List Arg) → print_loop (spell ps) 0 args ≡ meaning ps args
unfolding spell meaning print_loop
print_loop-meaning [] plain_bytes args = refl
print_loop-meaning (plain byte ∷ ps) (h, g, plain_bytes) args =
    plain_lem byte (spell ps) args h g
    ∙ ap (before_rest (byte ∷ [])) (print_loop-meaning ps plain_bytes args)
print_loop-meaning (ask k ∷ ps) plain_bytes args =
    ask_lem k (spell ps) args
    ∙ ap (follow (expand (asks k) args)) (fun_ext (print_loop-meaning ps plain_bytes))

-- printf of a format that is put together from plain bytes and conversions prints, in order, the bytes
-- and what the conversions make of the arguments, each of which is used once.
pub printf-meaning :
    (ps : List Piece) (args : List Arg) → IsPlain ps → printf (spell ps) args ≡ meaning ps args
unfolding printf
printf-meaning ps args plain_bytes = print_loop-meaning ps plain_bytes args
