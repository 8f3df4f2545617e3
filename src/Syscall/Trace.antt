-- ===== src/Syscall/Trace.antt =====
-- What a system call prints, with the format strings of w3/kernel/syscall.c, and the command monitor.
use os_t.Prelude.{
  ℕ, zero, suc, ◌%◌, ◌<◌, ◌≡◌, refl, sym, ap, subst, fun_ext, ◌∙◌, inl, inr, Bool, true, false,
  ◌||◌, Option, none, some, List, [], ◌∷◌, ◌++◌, if◌then◌else◌, ltb, get_elem?, length, Bool-cases,
  arith,
}
use mathlib.Core.Option.{some-injective}
use os_t.Prelude.Run.{Run, ok, ◌>>=◌}
use os_t.Ulib.{atoi}
use os_t.Print.{word, text, sign_extend, expand, printint, printf}
use os_t.Print.Digits.{Printed, Canonical, AllDigits, minus, printint-Printed, atoi-printint}
use os_t.Print.Format.{Piece, plain, ask, d, s, spell, meaning, printf-meaning}
use os_t.Syscall.{
  Process, argraw, argint, syscall_names, sys_monitor_num, sys_monitor, syscalls, has_call,
  monitored, trace_format, unknown_format, returned, syscall, run, take_args, first_byte,
  monitor_main,
}

-- What `%d` prints of an int.
unfoldable pub int_text : ℕ → List ℕ
int_text v = elim (printint (sign_extend v) 10 true) [ none ↦ [] | some out ↦ out ]

Printed-some :
    (base x : ℕ) (sign : Bool) (r : Option (List ℕ))
    → Printed base x sign r
    → r ≡ some (elim r [ none ↦ [] | some out ↦ out ])
Printed-some base x sign r (Printed.plain out e chars least v) = refl
Printed-some base x sign r (minus out e chars least v) = refl

int_text_lem : (v : ℕ) → printint (sign_extend v) 10 true ≡ some (int_text v)
unfolding int_text
int_text_lem v =
    Printed-some 10 (sign_extend v) true _ (printint-Printed (sign_extend v) true (ground arith)).0

-- The name of a call.
unfoldable pub name_of : ℕ → List ℕ
name_of num = elim (get_elem? syscall_names num) [ none ↦ [] | some name ↦ name ]

get_elem?-in :
    (xs : List (List ℕ)) (i : ℕ)
    → i < length xs
    → get_elem? xs i ≡ some (elim (get_elem? xs i) [ none ↦ [] | some name ↦ name ])
get_elem?-in [] i lt = absurd (omega arith)
get_elem?-in (x ∷ xs) zero lt = refl
get_elem?-in (x ∷ xs) (suc i) lt = get_elem?-in xs i (omega arith)

name_of_lem : (num : ℕ) → has_call num ≡ true → get_elem? syscall_names num ≡ some (name_of num)
unfolding name_of syscall_names
name_of_lem num h = get_elem?-in syscall_names num (ground (arith, h))

-- The line of a call with a name, and that of a number with no call.
abbrev pub trace_line : ℕ → List ℕ → ℕ → List ℕ
trace_line pid name ret =
    int_text pid
    ++ (b':' ∷ 32 ∷ b's' ∷ b'y' ∷ b's' ∷ b'c' ∷ b'a' ∷ b'l' ∷ b'l' ∷ 32 ∷ name
        ++ (32 ∷ b'-' ∷ b'>' ∷ 32 ∷ int_text ret ++ (10 ∷ [])))

abbrev pub unknown_line : ℕ → List ℕ → ℕ → List ℕ
unknown_line pid name num =
    int_text pid
    ++ (32 ∷ name
        ++ (b':'
              ∷ 32
              ∷ b'u'
              ∷ b'n'
              ∷ b'k'
              ∷ b'n'
              ∷ b'o'
              ∷ b'w'
              ∷ b'n'
              ∷ 32
              ∷ b's'
              ∷ b'y'
              ∷ b's'
              ∷ 32
              ∷ b'c'
              ∷ b'a'
              ∷ b'l'
              ∷ b'l'
              ∷ 32
              ∷ int_text num
            ++ (10 ∷ [])))

abbrev trace_pieces : List Piece
trace_pieces =
    (ask d)
    ∷ (plain b':')
    ∷ (plain 32)
    ∷ (plain b's')
    ∷ (plain b'y')
    ∷ (plain b's')
    ∷ (plain b'c')
    ∷ (plain b'a')
    ∷ (plain b'l')
    ∷ (plain b'l')
    ∷ (plain 32)
    ∷ (ask s)
    ∷ (plain 32)
    ∷ (plain b'-')
    ∷ (plain b'>')
    ∷ (plain 32)
    ∷ (ask d)
    ∷ (plain 10)
    ∷ []

abbrev unknown_pieces : List Piece
unknown_pieces =
    (ask d)
    ∷ (plain 32)
    ∷ (ask s)
    ∷ (plain b':')
    ∷ (plain 32)
    ∷ (plain b'u')
    ∷ (plain b'n')
    ∷ (plain b'k')
    ∷ (plain b'n')
    ∷ (plain b'o')
    ∷ (plain b'w')
    ∷ (plain b'n')
    ∷ (plain 32)
    ∷ (plain b's')
    ∷ (plain b'y')
    ∷ (plain b's')
    ∷ (plain 32)
    ∷ (plain b'c')
    ∷ (plain b'a')
    ∷ (plain b'l')
    ∷ (plain b'l')
    ∷ (plain 32)
    ∷ (ask d)
    ∷ (plain 10)
    ∷ []

printf-trace :
    (pid ret : ℕ) (name : List ℕ)
    → printf trace_format (word pid ∷ text (some name) ∷ word ret ∷ [])
      ≡ some (trace_line pid name ret)
unfolding spell meaning expand
printf-trace pid ret name =
    printf-meaning trace_pieces (word pid ∷ text (some name) ∷ word ret ∷ []) (omega arith)
    ∙ rw (int_text_lem pid, int_text_lem ret) refl

printf-unknown :
    (pid num : ℕ) (name : List ℕ)
    → printf unknown_format (word pid ∷ text (some name) ∷ word num ∷ [])
      ≡ some (unknown_line pid name num)
unfolding spell meaning expand
printf-unknown pid num name =
    printf-meaning unknown_pieces (word pid ∷ text (some name) ∷ word num ∷ []) (omega arith)
    ∙ rw (int_text_lem pid, int_text_lem num) refl

returned_lem :
    (num ret : ℕ) (p : Process)
    → has_call num ≡ true
    → returned num (ret, p) ≡ (
      some (if monitored p.monitor_mask num then trace_line p.pid (name_of num) ret else []),
      record p { a0 = ret },
    )
unfolding returned
returned_lem num ret p known = elim (Bool-cases (monitored p.monitor_mask num)) [
  | inl on ↦ rw (on, name_of_lem num known, printf-trace p.pid ret (name_of num)) refl
  | inr off ↦ rw off refl
]

-- syscall of a number of no call prints that it is unknown, and returns -1. For another number it makes
-- the call, leaves what the call returns in a0, and prints the line of the call, with the pid and the
-- result in decimal, exactly where the bit of its number is set in the mask of the process as the call
-- leaves it.
pub syscall-traced :
    (others : ℕ → Process → Run (ℕ × Process)) (p : Process)
    → syscall others p ≡ (
        if has_call (p.a7 % 4294967296)
        then (syscalls others (p.a7 % 4294967296) p >>= λ (ret, p'). ok (
          some (
              if monitored p'.monitor_mask (p.a7 % 4294967296)
              then trace_line p'.pid (name_of (p.a7 % 4294967296)) ret
              else []),
          record p' { a0 = ret },
        ))
        else ok (
          some (unknown_line p.pid p.name (p.a7 % 4294967296)),
          record p { a0 = 18446744073709551615 },
        ))
unfolding syscall
syscall-traced others p = elim (Bool-cases (has_call (p.a7 % 4294967296))) [
  | inl known ↦ rw known (
      ap (λ f. syscalls others (p.a7 % 4294967296) p >>= f)
        (fun_ext (λ r. ap ok (returned_lem (p.a7 % 4294967296) (r.0) (r.1) known))))
  | inr unknown ↦ rw (unknown, printf-unknown p.pid (p.a7 % 4294967296) p.name) refl
]

-- The mask that the system call monitor leaves.
sys_monitor_lem :
    (p : Process) (mask : ℕ)
    → p.a0 % 4294967296 ≡ mask
    → sys_monitor p ≡ ok (0, record p { monitor_mask = mask })
unfolding sys_monitor argint argraw
sys_monitor_lem p mask e = rw e refl

first_digit :
    (out : List ℕ)
    → AllDigits 10 out
    → Canonical out
    → (ltb (first_byte out) b'0' || ltb b'9' (first_byte out)) ≡ false
first_digit [] all least = absurd least
first_digit (byte ∷ rest) ((n, lt, is), all) least = ground arith

-- The command `monitor MASK CMD ARGS…`, with a mask of 32 bits in decimal, calls monitor with that mask and
-- executes the command with at most MAXARG - 2 words; and the system call with that argument returns 0
-- and makes it the mask of the process, whatever other calls do, and changes nothing else.
pub monitor-mask :
    (x : ℕ) (prog cmd out : List ℕ) (args : List (List ℕ))
    (others : ℕ → Process → Run (ℕ × Process)) (p : Process)
    → x < 4294967296
    → printint x 10 false ≡ some out
    → p.a7 % 4294967296 ≡ sys_monitor_num
    → p.a0 % 4294967296 ≡ x
    → (monitor_main (prog ∷ out ∷ cmd ∷ args) ≡ run x (take_args 30 (cmd ∷ args)))
      × ((line : List ℕ) × (syscall others p
            ≡ ok (some line, record p { monitor_mask = x; a0 = 0 })))
unfolding monitor_main syscalls
monitor-mask x prog cmd out args others p lt printed num arg =
    let (out', printed', reads) = atoi-printint x (omega arith) in
    let same : out' ≡ out = some-injective _ _ (sym printed' ∙ printed) in
    let mask : atoi out ≡ x = ap atoi (sym same) ∙ reads ∙ omega arith in
    let call : syscalls others sys_monitor_num p ≡ ok (0, record p { monitor_mask = x }) =
      sys_monitor_lem p x arg in
    (
      go (printint x 10 false) (printint-Printed x false (omega arith)).0 printed mask,
      (
        if monitored x sys_monitor_num then trace_line p.pid (name_of sys_monitor_num) 0 else [],
        syscall-traced others p ∙ rw (num, call) refl,
      ),
    )
  where
    go :
        (r : Option (List ℕ))
        → Printed 10 x false r
        → r ≡ some out
        → atoi out ≡ x
        → monitor_main (prog ∷ out ∷ cmd ∷ args) ≡ run x (take_args 30 (cmd ∷ args))
    go r (Printed.plain o e chars least v) e' mask =
        let same : o ≡ out = some-injective _ _ e' in
        rw (first_digit out (subst (AllDigits 10) same chars) (subst Canonical same least), mask)
          refl
    go r (minus o e chars least v) e' mask = absurd (cc)
