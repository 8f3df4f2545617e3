-- ===== src/Sh/Parse.antt =====
-- The commands and the parser of w3/user/sh.c.
use os_t.Prelude.{
  ℕ, zero, suc, ◌+◌, ◌*◌, not, List, [], ◌∷◌, ◌++◌, length, if◌then◌else◌, ◌==◌, leb,
}
use os_t.Prelude.Run.{Run, ok, panic, out_of_fuel, ◌>>=◌}
use os_t.Sh.Lex.{gettoken, peek}

-- EXEC with its argv, REDIR with file, mode and fd, PIPE, LIST, BACK.
pub data Cmd : Type 0 where
  exec : List (List ℕ) → Cmd
  redir : Cmd → List ℕ → ℕ → ℕ → Cmd
  pipe : Cmd → Cmd → Cmd
  list : Cmd → Cmd → Cmd
  back : Cmd → Cmd

-- MAXARGS
abbrev pub max_args : ℕ
max_args = 10

-- O_RDONLY; O_WRONLY|O_CREATE|O_TRUNC; O_WRONLY|O_CREATE
abbrev pub o_read : ℕ
o_read = 0

abbrev pub o_write_trunc : ℕ
o_write_trunc = 0x601

abbrev pub o_write : ℕ
o_write = 0x201

-- A parse of a command: what it returns, and the position that it leaves.
abbrev pub Parsed : Type 0
Parsed = Run (Cmd × List ℕ)

-- The switch of parseredirs.
unfoldable pub redirect : ℕ → List ℕ → Cmd → Cmd
redirect tok file cmd =
    if tok == b'<'
    then redir cmd file o_read 0
    else if tok == b'>'
    then redir cmd file o_write_trunc 1
    else if tok == b'+'
    then redir cmd file o_write 1
    else cmd

unfoldable pub parseredirs : ℕ → Cmd → List ℕ → Parsed
parseredirs zero cmd s = out_of_fuel
parseredirs (suc f) cmd s =
    let (more, s1) = peek s (b'<' ∷ b'>' ∷ []) in
    let (tok, _, s2) = gettoken s1 in
    let (kind, file, s3) = gettoken s2 in
    let rest = parseredirs f (redirect tok file cmd) s3 in
    if more then (if kind == b'a' then rest else panic) else ok (cmd, s1)

-- `cmd->argv[argc] = q; cmd->eargv[argc] = eq;`, where `cmd` is the EXEC node below the redirections.
unfoldable pub add_arg : List ℕ → Cmd → Cmd
add_arg word (exec argv) = exec (argv ++ (word ∷ []))
add_arg word (redir cmd file mode fd) = redir (add_arg word cmd) file mode fd
add_arg word (pipe l r) = pipe l r
add_arg word (list l r) = list l r
add_arg word (back cmd) = back cmd

-- The loop of parseexec.
unfoldable pub parse_args : ℕ → ℕ → Cmd → List ℕ → Parsed
parse_args zero argc ret s = out_of_fuel
parse_args (suc f) argc ret s =
    let (stop, s1) = peek s (b'|' ∷ b')' ∷ b'&' ∷ b';' ∷ []) in
    let (tok, word, s2) = gettoken s1 in
    let rest =
      parseredirs f (add_arg word ret) s2 >>= λ (ret', s3). parse_args f (argc + 1) ret' s3 in
    if stop
    then ok (ret, s1)
    else if tok == 0
    then ok (ret, s2)
    else if not (tok == b'a')
    then panic
    else if leb max_args (argc + 1)
    then panic
    else rest

-- The `&` loop of parseline.
unfoldable pub parse_backs : ℕ → Cmd → List ℕ → Parsed
parse_backs zero cmd s = out_of_fuel
parse_backs (suc f) cmd s =
    let (more, s1) = peek s (b'&' ∷ []) in
    let rest = parse_backs f (back cmd) (gettoken s1).2 in if more then rest else ok (cmd, s1)

unfoldable mutual
  pub parseline : ℕ → List ℕ → Parsed
  parseline zero s = out_of_fuel
  parseline (suc f) s = parsepipe f s >>= λ (first, s1). parse_backs f first s1 >>= λ (cmd, s2).
      let (more, s3) = peek s2 (b';' ∷ []) in
      let rest = parseline f (gettoken s3).2 >>= λ (right, s4). ok (list cmd right, s4) in
      if more then rest else ok (cmd, s3)

  pub parsepipe : ℕ → List ℕ → Parsed
  parsepipe zero s = out_of_fuel
  parsepipe (suc f) s = parseexec f s >>= λ (cmd, s1).
      let (more, s2) = peek s1 (b'|' ∷ []) in
      let rest = parsepipe f (gettoken s2).2 >>= λ (right, s3). ok (pipe cmd right, s3) in
      if more then rest else ok (cmd, s2)

  pub parseblock : ℕ → List ℕ → Parsed
  parseblock zero s = out_of_fuel
  parseblock (suc f) s =
      let (opens, s1) = peek s (b'(' ∷ []) in
      let rest = parseline f (gettoken s1).2 >>= λ (cmd, s2).
      let (closes, s3) = peek s2 (b')' ∷ []) in
      if closes then parseredirs f cmd (gettoken s3).2 else panic in
      if opens then rest else panic

  pub parseexec : ℕ → List ℕ → Parsed
  parseexec zero s = out_of_fuel
  parseexec (suc f) s =
      let (opens, s1) = peek s (b'(' ∷ []) in
      let block = parseblock f s1 in
      let simple = parseredirs f (exec []) s1 >>= λ (ret, s2). parse_args f 0 ret s2 in
      if opens then block else simple

-- `if(s != es) panic("syntax");`
unfoldable pub whole : Cmd → List ℕ → Run Cmd
whole cmd [] = ok cmd
whole cmd (c ∷ s) = panic

-- parsecmd up to nulterminate. The fuel is enough for any text.
unfoldable pub parsecmd : List ℕ → Run Cmd
unfolding whole
parsecmd s = parseline (4 * length s + 8) s >>= λ (cmd, s1). whole cmd (peek s1 []).1
