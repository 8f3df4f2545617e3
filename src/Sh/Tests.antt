-- ===== src/Sh/Tests.antt =====
-- A text that is parsed, and its tokens.
use os_t.Prelude.{ℕ, ◌≡◌, ◌≢◌, refl, List, [], ◌∷◌, arith}
use os_t.Prelude.Run.{ok, panic, out_of_fuel}
use os_t.Sh.Lex.{gettoken, peek, strchr_has}
use os_t.Sh.Parse.{
  Cmd, exec, redir, pipe, list, back, parsecmd, parseline, parseredirs, parse_args, parse_backs,
  add_arg, redirect,
}
use os_t.Sh.Tokens.{Toks, stop, space, single, more, plain}
use os_t.Sh.Grammar.{
  to, Arg, Line, final, before, last, into, simple, group, line_tokens, line_cmd, FitsLine,
}
use os_t.Sh.Accepts.{parsecmd_lem}
use os_t.Sh.Total.{parsecmd_ends}

abbrev word : ℕ → List ℕ
word c = c ∷ []

-- (a;b)>c|d x&
abbrev text : List ℕ
text = b'(' ∷ b'a' ∷ b';' ∷ b'b' ∷ b')' ∷ b'>' ∷ b'c' ∷ b'|' ∷ b'd' ∷ 32 ∷ b'x' ∷ b'&' ∷ []

abbrev arg : ℕ → Arg
arg c = (word c, [])

abbrev line : Line
line =
    final
      (into
        (group
          (before (last (simple [] (arg b'a' ∷ []))) 0 (final (last (simple [] (arg b'b' ∷ []))) 0))
          (to (word b'c') ∷ []))
        (last (simple [] (arg b'd' ∷ arg b'x' ∷ []))))
      1

abbrev cmd : Cmd
cmd = back (
    pipe (redir (list (exec (word b'a' ∷ [])) (exec (word b'b' ∷ []))) (word b'c') 0x601 1)
      (exec (word b'd' ∷ word b'x' ∷ [])))

text_parses : parsecmd text ≡ ok cmd
unfolding parsecmd parseline parseredirs parse_args parse_backs add_arg redirect gettoken peek
    strchr_has
text_parses = refl

-- A redirection with no file, and a `)` too many.
no_file : parsecmd (b'a' ∷ b'>' ∷ []) ≡ panic
unfolding parsecmd parseline parseredirs parse_args parse_backs add_arg redirect gettoken peek
    strchr_has
no_file = refl

leftovers : parsecmd (b'a' ∷ b')' ∷ []) ≡ panic
unfolding parsecmd parseline parseredirs parse_args parse_backs add_arg redirect gettoken peek
    strchr_has
leftovers = refl

line_fits : FitsLine line
unfolding FitsLine
line_fits = ((omega arith, omega arith), omega arith)

text_tokens : Toks text (line_tokens line [])
unfolding line_tokens strchr_has
text_tokens = single tt refl (
    plain refl tt refl refl (
      single tt refl (
        plain refl tt refl refl (
          single tt refl (
            more refl refl (
              plain refl tt refl refl (
                single tt refl (
                  plain refl tt refl refl
                    (space refl (plain refl tt refl refl (single tt refl stop)))))))))))

parsecmd_lem_example : parsecmd text ≡ ok (line_cmd line)
parsecmd_lem_example = parsecmd_lem line text line_fits text_tokens

parsecmd_ends_example : parsecmd text ≢ out_of_fuel
parsecmd_ends_example = parsecmd_ends text
