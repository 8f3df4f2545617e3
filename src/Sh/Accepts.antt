-- ===== src/Sh/Accepts.antt =====
-- parsecmd of w3/user/sh.c accepts the sentences of the grammar.
use os_t.Prelude.{ℕ, zero, suc, ◌+◌, ◌*◌, ◌<◌, ◌≡◌, refl, false, List, [], ◌∷◌, length, arith}
use os_t.Prelude.Run.{ok}
use os_t.Sh.Lex.{strchr_has, peek}
use os_t.Sh.Parse.{exec, parseline, parsepipe, parseexec, parsecmd}
use os_t.Sh.Tokens.{
  Tok, bar, lparen, rparen, semi, amp, Toks, view, skip_space-Toks, peek-Toks, length-Toks,
  skip_space-end,
}
use os_t.Sh.Grammar.{
  Redir, from, to, onto, Arg, Line, final, before, Pipeline, last, into, Command, simple, group,
  redirs_tokens, args_tokens, amps, line_tokens, pipeline_tokens, command_tokens, line_cmd,
  pipeline_cmd, command_cmd, FitsLine, FitsPipeline, FitsCommand, line_cost, pipeline_cost,
  command_cost, line_cost-le-tokens,
}
use os_t.Sh.Reads.{
  Reads, Stops, redir_set, exec_set, pipe_set, line_set, semi_NoWord, bar_NoWord, open_NoWord,
  close_NoWord, next, parseredirs-Reads, parse_args-Reads, parse_backs-Reads, view-args,
}

pipe_exec : (ts : List Tok) → Stops pipe_set ts → Stops exec_set ts
unfolding strchr_has
pipe_exec [] h = tt
pipe_exec (bar ∷ ts) h = refl
pipe_exec (rparen ∷ ts) h = refl
pipe_exec (amp ∷ ts) h = refl
pipe_exec (semi ∷ ts) h = refl
pipe_exec (t ∷ ts) h = absurd (cc)

pipe_bar : (ts : List Tok) → Stops pipe_set ts → view (b'|' ∷ []) ts ≡ false
unfolding strchr_has
pipe_bar [] h = refl
pipe_bar (bar ∷ ts) h = cc
pipe_bar (t ∷ ts) h = refl

-- What may follow the words of a command, and a pipeline with its `&`s.
view-open :
    (args : List Arg) (ts : List Tok)
    → Stops exec_set ts
    → view (b'(' ∷ []) (args_tokens args ts) ≡ false
unfolding strchr_has
view-open [] [] h = refl
view-open [] (lparen ∷ ts) h = cc
view-open [] (t ∷ ts) h = refl
view-open ((w, rs) ∷ args) ts h = refl

view-simple :
    (rs : List Redir) (args : List Arg) (ts : List Tok)
    → Stops exec_set ts
    → view (b'(' ∷ []) (redirs_tokens rs (args_tokens args ts)) ≡ false
unfolding strchr_has
view-simple [] args ts h = view-open args ts h
view-simple (from file ∷ rs) args ts h = refl
view-simple (to file ∷ rs) args ts h = refl
view-simple (onto file ∷ rs) args ts h = refl

Stops-amps : (n : ℕ) (ts : List Tok) → Stops pipe_set ts → Stops pipe_set (amps n ts)
unfolding strchr_has
Stops-amps zero ts h = h
Stops-amps (suc n) ts h = refl

line_pipe : (ts : List Tok) → Stops line_set ts → Stops pipe_set ts
unfolding strchr_has
line_pipe [] h = tt
line_pipe (rparen ∷ ts) h = refl
line_pipe (t ∷ ts) h = absurd (cc)

line_amp : (ts : List Tok) → Stops line_set ts → view (b'&' ∷ []) ts ≡ false
unfolding strchr_has
line_amp [] h = refl
line_amp (amp ∷ ts) h = cc
line_amp (t ∷ ts) h = refl

line_semi : (ts : List Tok) → Stops line_set ts → view (b';' ∷ []) ts ≡ false
unfolding strchr_has
line_semi [] h = refl
line_semi (semi ∷ ts) h = cc
line_semi (t ∷ ts) h = refl

exec_redir : (ts : List Tok) → Stops exec_set ts → view redir_set ts ≡ false
exec_redir ts h = view-args [] ts h

-- Each part is read, in front of what may follow it.
mutual
  unfolding parseline line_tokens line_cmd FitsLine line_cost strchr_has

  parseline-Reads :
      (l : Line) (f : ℕ) (s : List ℕ) (ts : List Tok)
      → FitsLine l
      → line_cost l < f
      → Stops line_set ts
      → Toks s (line_tokens l ts)
      → Reads (parseline f s) (line_cmd l) ts
  parseline-Reads l zero s ts fits h e r = absurd (omega arith)
  parseline-Reads (final p n) (suc f) s ts fits h e r =
      let first =
        parsepipe-Reads p f s (amps n ts) fits (omega arith) (Stops-amps n ts (line_pipe ts e)) r in
      let behind =
        parse_backs-Reads n f (pipeline_cmd p) ts (omega arith) (line_amp ts e) first.left in
      record {
        rest = _;
        result = rw (
          first.result,
          behind.result,
          peek-Toks (b';' ∷ []) ts semi_NoWord behind.left,
          line_semi ts e,
        );
        left = skip_space-Toks behind.left;
      }
  parseline-Reads (before p n l) (suc f) s ts fits h e r =
      let first =
        parsepipe-Reads p f s (amps n (semi ∷ line_tokens l ts)) fits.0 (omega arith)
          (Stops-amps n _ refl) r in
      let behind =
        parse_backs-Reads n f (pipeline_cmd p) (semi ∷ line_tokens l ts) (omega arith) refl
          first.left in
      let semicolon = next behind.left in
      let more = parseline-Reads l f semicolon.rest ts fits.1 (omega arith) e semicolon.others in
      record {
        rest = more.rest;
        result = rw (
          first.result,
          behind.result,
          peek-Toks (b';' ∷ []) _ semi_NoWord behind.left,
          semicolon.taken,
          more.result,
        );
        left = more.left;
      }

  parsepipe-Reads :
      (p : Pipeline) (f : ℕ) (s : List ℕ) (ts : List Tok)
      → FitsPipeline p
      → pipeline_cost p < f
      → Stops pipe_set ts
      → Toks s (pipeline_tokens p ts)
      → Reads (parsepipe f s) (pipeline_cmd p) ts
  parsepipe-Reads p zero s ts fits h e r = absurd (omega arith)
  parsepipe-Reads (last c) (suc f) s ts fits h e r =
      let first = parseexec-Reads c f s ts fits (omega arith) (pipe_exec ts e) r in
      record {
        rest = _;
        result = rw (first.result, peek-Toks (b'|' ∷ []) ts bar_NoWord first.left, pipe_bar ts e);
        left = skip_space-Toks first.left;
      }
  parsepipe-Reads (into c p) (suc f) s ts fits h e r =
      let first = parseexec-Reads c f s (bar ∷ pipeline_tokens p ts) fits.0 (omega arith) refl r in
      let sign = next first.left in
      let more = parsepipe-Reads p f sign.rest ts fits.1 (omega arith) e sign.others in
      record {
        rest = more.rest;
        result =
            rw (
              first.result,
              peek-Toks (b'|' ∷ []) _ bar_NoWord first.left,
              sign.taken,
              more.result,
            );
        left = more.left;
      }

  parseexec-Reads :
      (c : Command) (f : ℕ) (s : List ℕ) (ts : List Tok)
      → FitsCommand c
      → command_cost c < f
      → Stops exec_set ts
      → Toks s (command_tokens c ts)
      → Reads (parseexec f s) (command_cmd c) ts
  parseexec-Reads c zero s ts fits h e r = absurd (omega arith)
  parseexec-Reads (simple rs args) (suc f) s ts fits h e r =
      let first =
        parseredirs-Reads rs f (exec []) (args_tokens args ts) (omega arith) (view-args args ts e)
          (skip_space-Toks r) in
      let more = parse_args-Reads args f 0 [] rs ts (omega arith) (omega arith) e first.left in
      record {
        rest = more.rest;
        result =
            rw (peek-Toks (b'(' ∷ []) _ open_NoWord r, view-simple rs args ts e, first.result)
              more.result;
        left = more.left;
      }
  parseexec-Reads (group l rs) (suc zero) s ts fits h e r = absurd (omega arith)
  parseexec-Reads (group l rs) (suc (suc f)) s ts fits h e r =
      let opened = next (skip_space-Toks r) in
      let inner =
        parseline-Reads l f opened.rest (rparen ∷ redirs_tokens rs ts) fits (omega arith) refl
          opened.others in
      let closed = next inner.left in
      let more =
        parseredirs-Reads rs f (line_cmd l) ts (omega arith) (exec_redir ts e) closed.others in
      record {
        rest = more.rest;
        result =
            rw
              (
                peek-Toks (b'(' ∷ []) _ open_NoWord r,
                peek-Toks (b'(' ∷ []) _ open_NoWord (skip_space-Toks r),
                opened.taken,
                inner.result,
                peek-Toks (b')' ∷ []) _ close_NoWord inner.left,
                closed.taken,
              )
              more.result;
        left = more.left;
      }

-- parsecmd accepts each text whose tokens, with any spaces between them, are those of a line of the
-- grammar in which every command has fewer than MAXARGS words, and returns what the line means.
pub parsecmd_lem :
    (l : Line) (s : List ℕ) → FitsLine l → Toks s (line_tokens l []) → parsecmd s ≡ ok (line_cmd l)
unfolding parsecmd peek
parsecmd_lem l s fits r =
    let enough = line_cost-le-tokens l in
    let bytes = length-Toks r in
    let read = parseline-Reads l (4 * length s + 8) s [] fits (omega arith) tt r in
    rw (read.result, skip_space-end refl read.left)
