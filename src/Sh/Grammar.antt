-- ===== src/Sh/Grammar.antt =====
-- The grammar of the shell's commands, for w3/user/sh.c.
use os_t.Prelude.{ℕ, zero, suc, ◌+◌, ◌*◌, ◌≤◌, ◌<◌, ◌≡◌, List, [], ◌∷◌, ◌++◌, length, arith}
use os_t.Sh.Parse.{Cmd, exec, redir, pipe, list, back, max_args, o_read, o_write, o_write_trunc}
use os_t.Sh.Tokens.{Tok, bar, lparen, rparen, semi, amp, lt, gt, append, word}

-- `< file`, `> file` and `>> file`.
pub data Redir : Type 0 where
  from to onto : List ℕ → Redir

-- A word of a command, and the redirections behind it.
abbrev pub Arg : Type 0
Arg = List ℕ × List Redir

-- A line is a pipeline, the number of `&` behind it and, behind a `;`, another line.
mutual
  pub data Line : Type 0 where
    final : Pipeline → ℕ → Line
    before : Pipeline → ℕ → Line → Line

  pub data Pipeline : Type 0 where
    last : Command → Pipeline
    into : Command → Pipeline → Pipeline

  pub data Command : Type 0 where
    simple : List Redir → List Arg → Command
    group : Line → List Redir → Command

-- The tokens of each, in front of others.
abbrev pub redirs_tokens : List Redir → List Tok → List Tok
redirs_tokens [] ts = ts
redirs_tokens (from file ∷ rs) ts = lt ∷ word file ∷ redirs_tokens rs ts
redirs_tokens (to file ∷ rs) ts = gt ∷ word file ∷ redirs_tokens rs ts
redirs_tokens (onto file ∷ rs) ts = append ∷ word file ∷ redirs_tokens rs ts

abbrev pub args_tokens : List Arg → List Tok → List Tok
args_tokens [] ts = ts
args_tokens ((w, rs) ∷ args) ts = word w ∷ redirs_tokens rs (args_tokens args ts)

abbrev pub amps : ℕ → List Tok → List Tok
amps zero ts = ts
amps (suc n) ts = amp ∷ amps n ts

unfoldable mutual
  pub line_tokens : Line → List Tok → List Tok
  line_tokens (final p n) ts = pipeline_tokens p (amps n ts)
  line_tokens (before p n l) ts = pipeline_tokens p (amps n (semi ∷ line_tokens l ts))

  pub pipeline_tokens : Pipeline → List Tok → List Tok
  pipeline_tokens (last c) ts = command_tokens c ts
  pipeline_tokens (into c p) ts = command_tokens c (bar ∷ pipeline_tokens p ts)

  pub command_tokens : Command → List Tok → List Tok
  command_tokens (simple rs args) ts = redirs_tokens rs (args_tokens args ts)
  command_tokens (group l rs) ts = lparen ∷ line_tokens l (rparen ∷ redirs_tokens rs ts)

-- What each means: the redirections stand round the command, the last one outermost.
abbrev pub wrap : Cmd → List Redir → Cmd
wrap c [] = c
wrap c (from file ∷ rs) = wrap (redir c file o_read 0) rs
wrap c (to file ∷ rs) = wrap (redir c file o_write_trunc 1) rs
wrap c (onto file ∷ rs) = wrap (redir c file o_write 1) rs

abbrev pub words : List Arg → List (List ℕ)
words [] = []
words ((w, rs) ∷ args) = w ∷ words args

abbrev pub redirs_of : List Arg → List Redir
redirs_of [] = []
redirs_of ((w, rs) ∷ args) = rs ++ redirs_of args

abbrev pub backs : ℕ → Cmd → Cmd
backs zero c = c
backs (suc n) c = backs n (back c)

unfoldable mutual
  pub line_cmd : Line → Cmd
  line_cmd (final p n) = backs n (pipeline_cmd p)
  line_cmd (before p n l) = list (backs n (pipeline_cmd p)) (line_cmd l)

  pub pipeline_cmd : Pipeline → Cmd
  pipeline_cmd (last c) = command_cmd c
  pipeline_cmd (into c p) = pipe (command_cmd c) (pipeline_cmd p)

  pub command_cmd : Command → Cmd
  command_cmd (simple rs args) = wrap (exec (words args)) (rs ++ redirs_of args)
  command_cmd (group l rs) = wrap (line_cmd l) rs

-- Every command has fewer than MAXARGS words.
unfoldable mutual
  pub FitsLine : Line → Type 0
  FitsLine (final p n) = FitsPipeline p
  FitsLine (before p n l) = FitsPipeline p × FitsLine l

  pub FitsPipeline : Pipeline → Type 0
  FitsPipeline (last c) = FitsCommand c
  FitsPipeline (into c p) = FitsCommand c × FitsPipeline p

  pub FitsCommand : Command → Type 0
  FitsCommand (simple rs args) = length args < max_args
  FitsCommand (group l rs) = FitsLine l

-- The fuel that the parser takes.
abbrev pub args_cost : List Arg → ℕ
args_cost [] = 0
args_cost ((w, rs) ∷ args) = 1 + length rs + args_cost args

unfoldable mutual
  pub line_cost : Line → ℕ
  line_cost (final p n) = 1 + pipeline_cost p + n
  line_cost (before p n l) = 1 + pipeline_cost p + n + line_cost l

  pub pipeline_cost : Pipeline → ℕ
  pipeline_cost (last c) = 1 + command_cost c
  pipeline_cost (into c p) = 1 + command_cost c + pipeline_cost p

  pub command_cost : Command → ℕ
  command_cost (simple rs args) = 1 + length rs + args_cost args
  command_cost (group l rs) = 2 + line_cost l + length rs

redirs_cost :
    (rs : List Redir) (ts : List Tok)
    → length rs + length rs + length ts ≡ length (redirs_tokens rs ts)
redirs_cost [] ts = omega arith
redirs_cost (from file ∷ rs) ts = omega (arith, redirs_cost rs ts)
redirs_cost (to file ∷ rs) ts = omega (arith, redirs_cost rs ts)
redirs_cost (onto file ∷ rs) ts = omega (arith, redirs_cost rs ts)

args_cost-le :
    (args : List Arg) (ts : List Tok) → args_cost args + length ts ≤ length (args_tokens args ts)
args_cost-le [] ts = omega arith
args_cost-le ((w, rs) ∷ args) ts =
    omega (arith, args_cost-le args ts, redirs_cost rs (args_tokens args ts))

amps_cost : (n : ℕ) (ts : List Tok) → n + length ts ≡ length (amps n ts)
amps_cost zero ts = omega arith
amps_cost (suc n) ts = omega (arith, amps_cost n ts)

-- Four units of fuel for a token, and three, are enough.
mutual
  unfolding line_cost line_tokens

  line_cost_le :
      (l : Line) (ts : List Tok) → line_cost l + 4 * length ts ≤ 4 * length (line_tokens l ts) + 3
  line_cost_le (final p n) ts = omega (arith, pipeline_cost_le p (amps n ts), amps_cost n ts)
  line_cost_le (before p n l) ts = omega (
    arith,
    pipeline_cost_le p (amps n (semi ∷ line_tokens l ts)),
    amps_cost n (semi ∷ line_tokens l ts),
    line_cost_le l ts,
  )

  pipeline_cost_le :
      (p : Pipeline) (ts : List Tok)
      → pipeline_cost p + 4 * length ts ≤ 4 * length (pipeline_tokens p ts) + 2
  pipeline_cost_le (last c) ts = omega (arith, command_cost_le c ts)
  pipeline_cost_le (into c p) ts =
      omega (arith, command_cost_le c (bar ∷ pipeline_tokens p ts), pipeline_cost_le p ts)

  command_cost_le :
      (c : Command) (ts : List Tok)
      → command_cost c + 4 * length ts ≤ 4 * length (command_tokens c ts) + 1
  command_cost_le (simple rs args) ts =
      omega (arith, redirs_cost rs (args_tokens args ts), args_cost-le args ts)
  command_cost_le (group l rs) ts =
      omega (arith, line_cost_le l (rparen ∷ redirs_tokens rs ts), redirs_cost rs ts)

pub line_cost-le-tokens : (l : Line) → line_cost l ≤ 4 * length (line_tokens l []) + 3
line_cost-le-tokens l = omega (arith, line_cost_le l [])
