-- ===== src/Sh/Reads.antt =====
-- The loops of the parser of w3/user/sh.c on redirections, words and `&`s.
use os_t.Prelude.{
  ℕ, zero, suc, ◌+◌, ◌<◌, ◌≡◌, refl, leb, true, false, List, [], ◌∷◌, ◌++◌, length, arith,
}
use mathlib.Core.List.{append-nil, append_assoc}
use os_t.Prelude.Run.{ok}
use os_t.Sh.Lex.{strchr_has, skip_space}
use os_t.Sh.Parse.{
  Cmd, exec, back, max_args, Parsed, redirect, parseredirs, add_arg, parse_args, parse_backs,
}
use os_t.Sh.Tokens.{
  Tok, lt, gt, append, word, Toks, stop, shows, NoWord, view, code, skip_space-Toks, gettoken-Toks,
  gettoken-end, peek-Toks, Next,
}
use os_t.Sh.Grammar.{
  Redir, from, to, onto, Arg, redirs_tokens, args_tokens, amps, wrap, words, redirs_of, backs,
  args_cost,
}

-- A parse that gives the command, and leaves a text of the tokens.
pub record Reads (r : Parsed) (cmd : Cmd) (ts : List Tok) : Type 0 where
  pub rest : List ℕ
  pub result : r ≡ ok (cmd, rest)
  pub left : Toks rest ts

-- The tokens are at their end, or start with one of the set.
abbrev pub Stops : List ℕ → List Tok → Type 0
Stops set [] = Unit
Stops set (t ∷ ts) = shows set t ≡ true

abbrev pub redir_set : List ℕ
redir_set = b'<' ∷ b'>' ∷ []

abbrev pub exec_set : List ℕ
exec_set = b'|' ∷ b')' ∷ b'&' ∷ b';' ∷ []

abbrev pub pipe_set : List ℕ
pipe_set = b')' ∷ b'&' ∷ b';' ∷ []

abbrev pub line_set : List ℕ
line_set = b')' ∷ []

-- No set of the parser has a byte of a word.
pub redir_NoWord : NoWord redir_set
unfolding strchr_has
redir_NoWord c h = ground arith

exec_NoWord : NoWord exec_set
unfolding strchr_has
exec_NoWord c h = ground arith

back_NoWord : NoWord (b'&' ∷ [])
unfolding strchr_has
back_NoWord c h = ground arith

pub semi_NoWord : NoWord (b';' ∷ [])
unfolding strchr_has
semi_NoWord c h = ground arith

pub bar_NoWord : NoWord (b'|' ∷ [])
unfolding strchr_has
bar_NoWord c h = ground arith

pub open_NoWord : NoWord (b'(' ∷ [])
unfolding strchr_has
open_NoWord c h = ground arith

pub close_NoWord : NoWord (b')' ∷ [])
unfolding strchr_has
close_NoWord c h = ground arith

-- What the ends of each part exclude.
Stops-exec : (ts : List Tok) → Stops exec_set ts → view redir_set ts ≡ false
unfolding strchr_has
Stops-exec [] h = refl
Stops-exec (lt ∷ ts) h = cc
Stops-exec (gt ∷ ts) h = cc
Stops-exec (append ∷ ts) h = cc
Stops-exec (t ∷ ts) h = refl

-- gettoken after peek.
pub next : {s : List ℕ} {t : Tok} {ts : List Tok} → Toks s (t ∷ ts) → Next (skip_space s) t ts
next r = gettoken-Toks (skip_space-Toks r)

-- A redirection.
redir_step :
    (f : ℕ) (file : List ℕ) (t : Tok) (cmd : Cmd) {s : List ℕ} {ts : List Tok} {c : Cmd}
    {us : List Tok}
    → shows redir_set t ≡ true
    → Toks s (t ∷ word file ∷ ts)
    → ((s' : List ℕ) → Toks s' ts → Reads (parseredirs f (redirect (code t) file cmd) s') c us)
    → Reads (parseredirs (suc f) cmd s) c us
unfolding parseredirs
redir_step f file t cmd sh r k =
    let first = next r in
    let second = gettoken-Toks first.others in
    let rest = k second.rest second.others in
    record {
      rest = rest.rest;
      result = rw (peek-Toks redir_set _ redir_NoWord r, sh, first.taken, second.taken) rest.result;
      left = rest.left;
    }

pub parseredirs-Reads :
    (rs : List Redir) (f : ℕ) (cmd : Cmd) {s : List ℕ} (ts : List Tok)
    → length rs < f
    → view redir_set ts ≡ false
    → Toks s (redirs_tokens rs ts)
    → Reads (parseredirs f cmd s) (wrap cmd rs) ts
unfolding parseredirs redirect strchr_has
parseredirs-Reads rs zero cmd ts h e r = absurd (omega arith)
parseredirs-Reads [] (suc f) cmd ts h e r = record {
  rest = _;
  result = rw (peek-Toks redir_set ts redir_NoWord r, e);
  left = skip_space-Toks r;
}
parseredirs-Reads (from file ∷ rs) (suc f) cmd ts h e r =
    redir_step f file lt cmd refl r λ s' r'. parseredirs-Reads rs f _ ts (omega arith) e r'
parseredirs-Reads (to file ∷ rs) (suc f) cmd ts h e r =
    redir_step f file gt cmd refl r λ s' r'. parseredirs-Reads rs f _ ts (omega arith) e r'
parseredirs-Reads (onto file ∷ rs) (suc f) cmd ts h e r =
    redir_step f file append cmd refl r λ s' r'. parseredirs-Reads rs f _ ts (omega arith) e r'

-- A word goes to the command below the redirections.
add_arg-wrap :
    (rs : List Redir) (w : List ℕ) (c : Cmd) → add_arg w (wrap c rs) ≡ wrap (add_arg w c) rs
unfolding add_arg
add_arg-wrap [] w c = refl
add_arg-wrap (from file ∷ rs) w c = add_arg-wrap rs w _
add_arg-wrap (to file ∷ rs) w c = add_arg-wrap rs w _
add_arg-wrap (onto file ∷ rs) w c = add_arg-wrap rs w _

add_arg-exec :
    (rs : List Redir) (w : List ℕ) (ws : List (List ℕ))
    → add_arg w (wrap (exec ws) rs) ≡ wrap (exec (ws ++ (w ∷ []))) rs
unfolding add_arg
add_arg-exec rs w ws = add_arg-wrap rs w (exec ws)

pub wrap-append : (rs qs : List Redir) (c : Cmd) → wrap (wrap c rs) qs ≡ wrap c (rs ++ qs)
wrap-append [] qs c = refl
wrap-append (from file ∷ rs) qs c = wrap-append rs qs _
wrap-append (to file ∷ rs) qs c = wrap-append rs qs _
wrap-append (onto file ∷ rs) qs c = wrap-append rs qs _

-- What may follow the redirections of a word.
pub view-args :
    (args : List Arg) (ts : List Tok)
    → Stops exec_set ts
    → view redir_set (args_tokens args ts) ≡ false
view-args [] ts h = Stops-exec ts h
view-args ((w, rs) ∷ args) ts h = refl

pub parse_args-Reads :
    (args : List Arg) (f argc : ℕ) (ws : List (List ℕ)) (rs : List Redir) {s : List ℕ}
    (ts : List Tok)
    → args_cost args < f
    → argc + length args < max_args
    → Stops exec_set ts
    → Toks s (args_tokens args ts)
    → Reads
        (parse_args f argc (wrap (exec ws) rs) s)
        (wrap (exec (ws ++ words args)) (rs ++ redirs_of args))
        ts
unfolding parse_args
parse_args-Reads args zero argc ws rs ts h m e r = absurd (omega arith)
parse_args-Reads [] (suc f) argc ws rs [] h m e r = record {
  rest = [];
  result = rw (peek-Toks exec_set [] exec_NoWord r, gettoken-end r, append-nil ws, append-nil rs);
  left = stop;
}
parse_args-Reads [] (suc f) argc ws rs (t ∷ ts) h m e r = record {
  rest = _;
  result = rw (peek-Toks exec_set (t ∷ ts) exec_NoWord r, e, append-nil ws, append-nil rs);
  left = skip_space-Toks r;
}
parse_args-Reads ((w, qs) ∷ args) (suc f) argc ws rs ts h m e r =
    let first = next r in
    let after =
      parseredirs-Reads qs f (wrap (exec (ws ++ (w ∷ []))) rs) (args_tokens args ts) (omega arith)
        (view-args args ts e) first.others in
    let more =
      parse_args-Reads args f (argc + 1) (ws ++ (w ∷ [])) (rs ++ qs) ts (omega arith) (omega arith)
        e after.left in
    let room : leb max_args (argc + 1) ≡ false = ground arith in
    record {
      rest = more.rest;
      result =
          rw
            (
              peek-Toks exec_set _ exec_NoWord r,
              first.taken,
              room,
              add_arg-exec rs w ws,
              after.result,
              wrap-append rs qs _,
            )
            (rw (append_assoc ws _ _, append_assoc rs _ _) at more.result);
      left = more.left;
    }

-- The `&`s of a line.
pub parse_backs-Reads :
    (n f : ℕ) (cmd : Cmd) {s : List ℕ} (ts : List Tok)
    → n < f
    → view (b'&' ∷ []) ts ≡ false
    → Toks s (amps n ts)
    → Reads (parse_backs f cmd s) (backs n cmd) ts
unfolding parse_backs strchr_has
parse_backs-Reads n zero cmd ts h e r = absurd (omega arith)
parse_backs-Reads zero (suc f) cmd ts h e r = record {
  rest = _;
  result = rw (peek-Toks (b'&' ∷ []) ts back_NoWord r, e);
  left = skip_space-Toks r;
}
parse_backs-Reads (suc n) (suc f) cmd ts h e r =
    let first = next r in
    let more = parse_backs-Reads n f (back cmd) ts (omega arith) e first.others in
    record {
      rest = more.rest;
      result = rw (peek-Toks (b'&' ∷ []) _ back_NoWord r, first.taken) more.result;
      left = more.left;
    }
