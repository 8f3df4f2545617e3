-- ===== src/Console/Lines.antt =====
-- consoleread of w3/kernel/console.c, and what keys and reads do together.
use os_t.Prelude.{
  ℕ, zero, suc, ◌+◌, ◌-◌, ◌%◌, ◌≤◌, ◌<◌, ◌≡◌, ◌≢◌, refl, sym, ap, ◌∙◌, Bool, true, false, not, List,
  [], ◌∷◌, ◌++◌, length, if◌then◌else◌, ◌==◌, ltb, arith,
}
use mathlib.Core.List.{append-nil, append_assoc}
use os_t.Console.{
  input_buf_size, uint_range, newline, carriage_return, ctrl_d, ctrl_h, ctrl_p, ctrl_u, delete,
  Cons, Read, got, read_refused, read_asleep, read_pass, consoleintr,
}
use os_t.Console.Ring.{Holds, byte, IsConsole, commit, key_view}
use os_t.Console.Keys.{consoleintr-IsConsole}

-- What a pass of consoleread does to the bytes that are ready.
unfoldable pub read_view : (ℕ → Bool) → Bool → ℕ → ℕ → List ℕ → Read × List ℕ × List ℕ
read_view copyout killed target zero ready = (got target, [], ready)
read_view copyout killed target (suc n) [] =
    (if killed then read_refused else read_asleep (suc n), [], [])
read_view copyout killed target (suc n) (c ∷ ready) =
    let (res, bytes, left) = read_view copyout killed target n ready in
    if c == ctrl_d
    then (got (target - suc n), [], if ltb (suc n) target then c ∷ ready else ready)
    else if not (copyout (target - suc n))
    then (got (target - suc n), [], ready)
    else if c == newline
    then (got (target - n), c ∷ [], ready)
    else (res, c ∷ bytes, left)

Holds-first :
    {at : ℕ → ℕ} {r x : ℕ} {xs : List ℕ} → Holds at r (x ∷ xs) → at (r % input_buf_size) ≡ x
Holds-first (byte r x xs h hs) = h

Holds-rest : {at : ℕ → ℕ} {r x : ℕ} {xs : List ℕ} → Holds at r (x ∷ xs) → Holds at (suc r) xs
Holds-rest (byte r x xs h hs) = hs

module _ (cons : Cons) (x : ℕ) (ready line : List ℕ) (v : IsConsole cons (x ∷ ready) line) where
  first_byte : cons.buf (cons.r % input_buf_size) ≡ x
  first_byte = let r = v.reads in ap cons.buf (omega arith) ∙ Holds-first v.stored

  some_ready : (cons.r == cons.w) ≡ false
  some_ready = let r = v.reads in let w = v.writes in let room = v.room in ground arith

  taken-IsConsole : IsConsole (record cons { r = (cons.r + 1) % uint_range }) ready line
  taken-IsConsole = record {
    read = suc v.read;
    reads = let r = v.reads in omega arith;
    writes = let w = v.writes in omega arith;
    edits = let e = v.edits in omega arith;
    room = let room = v.room in omega arith;
    stored = Holds-rest v.stored;
    last = rw place v.last;
    open_line = v.open_line;
  }
    where
      place : suc v.read + length ready + length line ≡ v.read + length (x ∷ ready) + length line
      place = omega arith

  -- `cons.r--`
  put_back-IsConsole :
      IsConsole
        (record cons { r = ((cons.r + 1) % uint_range + uint_range - 1) % uint_range })
        (x ∷ ready)
        line
  put_back-IsConsole = record {
    read = v.read;
    reads = let r = v.reads in omega arith;
    writes = v.writes;
    edits = v.edits;
    room = v.room;
    stored = v.stored;
    last = v.last;
    open_line = v.open_line;
  }

-- A pass and its view end alike, store the same bytes, and leave the console and the two lists in step.
pub record InStep (pass : Read × List ℕ × Cons) (view : Read × List ℕ × List ℕ) (line : List ℕ)
    : Type 0 where
  pub ending : pass.0 ≡ view.0
  pub bytes : pass.1 ≡ view.1
  pub console : IsConsole pass.2 view.2 line

InStep-if :
    (b : Bool) {p q : Read × List ℕ × Cons} {u w : Read × List ℕ × List ℕ} {line : List ℕ}
    → InStep p u line
    → InStep q w line
    → InStep (if b then p else q) (if b then u else w) line
InStep-if true h k = h
InStep-if false h k = k

IsConsole-if :
    (b : Bool) {c d : Cons} {xs ys line : List ℕ}
    → IsConsole c xs line
    → IsConsole d ys line
    → IsConsole (if b then c else d) (if b then xs else ys) line
IsConsole-if true h k = h
IsConsole-if false h k = k

-- A pass of consoleread gives the bytes that are ready, in order, up to a newline, C('D'), the end of the
-- request or a failed copy; it sleeps, or is refused, only where none is ready; and it leaves the rest.
pub read_pass-InStep :
    (copyout : ℕ → Bool) (killed : Bool) (target n : ℕ) (cons : Cons) (ready line : List ℕ)
    → IsConsole cons ready line
    → InStep (read_pass copyout killed target n cons) (read_view copyout killed target n ready) line
unfolding read_pass read_view
read_pass-InStep copyout killed target zero cons ready line v = record {
  ending = refl;
  bytes = refl;
  console = v;
}
read_pass-InStep copyout killed target (suc n) cons [] line v =
    let empty : (cons.r == cons.w) ≡ true = let r = v.reads in let w = v.writes in ground arith in
    rw empty (record { ending = refl; bytes = refl; console = v })
read_pass-InStep copyout killed target (suc n) cons (x ∷ ready) line v =
    let after = taken-IsConsole cons x ready line v in
    let ih = read_pass-InStep copyout killed target n _ ready line after in
    rw (some_ready cons x ready line v, first_byte cons x ready line v)
      (InStep-if (x == ctrl_d)
        (record {
          ending = refl;
          bytes = refl;
          console =
              IsConsole-if (ltb (suc n) target) (put_back-IsConsole cons x ready line v) after;
        })
        (InStep-if (not (copyout (target - suc n)))
          (record { ending = refl; bytes = refl; console = after })
          (InStep-if (x == newline) (record { ending = refl; bytes = refl; console = after })
            (record {
              ending = ih.ending;
              bytes = ap (λ l. x ∷ l) ih.bytes;
              console = ih.console;
            }))))

-- The keys are pressed in turn.
unfoldable pub type_keys : List ℕ → Cons → Cons
type_keys [] cons = cons
type_keys (c ∷ cs) cons = type_keys cs (consoleintr c cons).2

-- A key that stands for itself.
abbrev pub IsPlain : ℕ → Type 0
IsPlain c =
    (c ≢ 0)
    × (c ≢ newline)
    × (c ≢ carriage_return)
    × (c ≢ ctrl_d)
    × (c ≢ ctrl_h)
    × (c ≢ ctrl_p)
    × (c ≢ ctrl_u)
    × (c ≢ delete)

abbrev pub AllPlain : List ℕ → Type 0
AllPlain [] = Unit
AllPlain (c ∷ cs) = IsPlain c × AllPlain cs

abbrev onto : List ℕ → List ℕ → List ℕ
onto [] line = line
onto (c ∷ cs) line = onto cs (c ∷ line)

plain_key :
    (c : ℕ) (ready line : List ℕ)
    → IsPlain c
    → length ready + length line < 127
    → key_view c ready line ≡ (ready, c ∷ line)
unfolding key_view
plain_key c ready line p room = ground arith

type_keys-IsConsole :
    (cs : List ℕ) (cons : Cons) (ready line : List ℕ)
    → IsConsole cons ready line
    → AllPlain cs
    → length ready + length line + length cs < 128
    → IsConsole (type_keys cs cons) ready (onto cs line)
unfolding type_keys
type_keys-IsConsole [] cons ready line v p room = v
type_keys-IsConsole (c ∷ cs) cons ready line v p room =
    type_keys-IsConsole cs _ ready (c ∷ line)
      (rw (plain_key c ready line p.0 (omega arith)) at (consoleintr-IsConsole cons ready line c v))
      p.1 (omega arith)

type_keys-append :
    (cs ds : List ℕ) (cons : Cons) → type_keys (cs ++ ds) cons ≡ type_keys ds (type_keys cs cons)
unfolding type_keys
type_keys-append [] ds cons = refl
type_keys-append (c ∷ cs) ds cons = type_keys-append cs ds _

length-onto : (cs line : List ℕ) → length (onto cs line) ≡ length cs + length line
length-onto [] line = omega arith
length-onto (c ∷ cs) line = omega (arith, length-onto cs (c ∷ line))

commit-onto : (cs line : List ℕ) → commit [] (onto cs line) ≡ commit [] line ++ cs
commit-onto [] line = sym (append-nil (commit [] line))
commit-onto (c ∷ cs) line = commit-onto cs (c ∷ line) ∙ append_assoc (commit [] line) (c ∷ []) cs

newline_key :
    (line : List ℕ)
    → length line < 128
    → key_view newline [] line ≡ (commit [] line ++ (newline ∷ []), [])
unfolding key_view
newline_key line room = ground arith

read_view-line :
    (copyout : ℕ → Bool) (killed : Bool) (target n : ℕ) (cs : List ℕ)
    → AllPlain cs
    → ((i : ℕ) → copyout i ≡ true)
    → length cs < n
    → n ≤ target
    → read_view copyout killed target n (cs ++ (newline ∷ []))
      ≡ (got (target - n + length cs + 1), cs ++ (newline ∷ []), [])
unfolding read_view
read_view-line copyout killed target zero cs p works lt le = absurd (omega arith)
read_view-line copyout killed target (suc n) [] p works lt le =
    let count : target - n ≡ target - suc n + 0 + 1 = omega arith in
    rw (works (target - suc n), count)
read_view-line copyout killed target (suc n) (c ∷ cs) p works lt le =
    let no_end : (c == ctrl_d) ≡ false = let p' = p.0.3 in ground arith in
    let no_newline : (c == newline) ≡ false = let p' = p.0.1 in ground arith in
    let count : target - n + length cs + 1 ≡ target - suc n + suc (length cs) + 1 = omega arith in
    rw (
      no_end,
      works (target - suc n),
      no_newline,
      read_view-line copyout killed target n cs p.1 works (omega arith) (omega arith),
      count,
    )

-- A line that is typed at a console that holds nothing is what the next consoleread gives, with its
-- newline and no more, where the line has fewer than INPUT_BUF_SIZE - 1 keys that stand for themselves,
-- the request is longer than the line, and either_copyout works; the console then holds nothing again.
pub read_pass-type_keys :
    (copyout : ℕ → Bool) (killed : Bool) (cs : List ℕ) (n : ℕ) (cons : Cons)
    → IsConsole cons [] []
    → AllPlain cs
    → length cs < 127
    → ((i : ℕ) → copyout i ≡ true)
    → length cs < n
    → let (res, bytes, cons') =
        read_pass copyout killed n n (type_keys (cs ++ (newline ∷ [])) cons) in
      (res ≡ got (length cs + 1)) × (bytes ≡ cs ++ (newline ∷ [])) × IsConsole cons' [] []
unfolding type_keys
read_pass-type_keys copyout killed cs n cons v p room works lt =
    let short : length (onto cs []) < 128 = omega (arith, length-onto cs []) in
    let typed_in = type_keys-IsConsole cs cons [] [] v p (omega arith) in
    let ready : IsConsole (type_keys (cs ++ (newline ∷ [])) cons) (cs ++ (newline ∷ [])) [] =
      rw (type_keys-append cs (newline ∷ []) cons) (
        rw (newline_key (onto cs []) short, commit-onto cs []) at
          (consoleintr-IsConsole _ [] (onto cs []) newline typed_in)) in
    let both = read_pass-InStep copyout killed n n _ _ _ ready in
    let view = read_view-line copyout killed n n cs p works lt (omega arith) in
    let count : n - n + length cs + 1 ≡ length cs + 1 = omega arith in
    (
      both.ending ∙ ap (λ t. t.0) view ∙ ap got count,
      both.bytes ∙ ap (λ t. t.1) view,
      rw (ap (λ t. t.2) view) at both.console,
    )
