-- ===== src/Console/Ring.antt =====
-- The buffer of w3/kernel/console.c as two lists: the bytes that are ready to be read, and those that
-- are typed and may still be erased.
use os_t.Prelude.{
  ℕ, zero, suc, ◌+◌, ◌%◌, ◌≤◌, ◌<◌, ◌≡◌, ap, ◌∙◌, false, ◌||◌, not, List, [], ◌∷◌, ◌++◌, length,
  length-append, if◌then◌else◌, ◌==◌, ltb, arith,
}
use os_t.Console.{
  input_buf_size, uint_range, newline, carriage_return, ctrl_d, ctrl_h, ctrl_p, ctrl_u, delete,
  Cons,
}

-- The ring holds the bytes of the list from place `r` on, counted without wrap-around.
pub data Holds (at : ℕ → ℕ) : ℕ → List ℕ → Type 0 where
  stop : (r : ℕ) → Holds at r []
  byte :
      (r x : ℕ) (xs : List ℕ)
      → at (r % input_buf_size) ≡ x
      → Holds at (suc r) xs
      → Holds at r (x ∷ xs)

-- The ring holds the bytes of the list before place `e`, the last one first.
pub data Behind (at : ℕ → ℕ) : ℕ → List ℕ → Type 0 where
  none_typed : (e : ℕ) → Behind at e []
  typed :
      (e x : ℕ) (xs : List ℕ)
      → at (e % input_buf_size) ≡ x
      → Behind at e xs
      → Behind at (suc e) (x ∷ xs)

abbrev pub NoNewline : List ℕ → Type 0
NoNewline [] = Unit
NoNewline (x ∷ xs) = ((x == newline) ≡ false) × NoNewline xs

-- The console holds the bytes `ready`, the oldest first, and `line`, the newest first; `read` is the
-- number of bytes that were ever read.
pub record IsConsole (cons : Cons) (ready line : List ℕ) : Type 0 where
  pub read : ℕ
  pub reads : cons.r ≡ read % uint_range
  pub writes : cons.w ≡ (read + length ready) % uint_range
  pub edits : cons.e ≡ (read + length ready + length line) % uint_range
  pub room : length ready + length line ≤ input_buf_size
  pub stored : Holds cons.buf read ready
  pub last : Behind cons.buf (read + length ready + length line) line
  pub open_line : NoNewline line

-- A byte written at a place outside of those held changes none of them.
pub Holds-other :
    {at : ℕ → ℕ} {r : ℕ} {xs : List ℕ} (b e k v : ℕ)
    → k ≡ e % input_buf_size
    → b ≤ r
    → r + length xs ≤ e
    → e < b + input_buf_size
    → Holds at r xs
    → Holds (λ i. if i == k then v else at i) r xs
Holds-other b e k v i l h g (stop r) = stop r
Holds-other b e k v i l h g (byte r x xs p hs) =
    byte r x xs (ground arith) (Holds-other b e k v i (omega arith) (omega arith) g hs)

pub Behind-other :
    {at : ℕ → ℕ} {p : ℕ} {xs : List ℕ} (b e k v : ℕ)
    → k ≡ e % input_buf_size
    → b + length xs ≤ p
    → p ≤ e
    → e < b + input_buf_size
    → Behind at p xs
    → Behind (λ i. if i == k then v else at i) p xs
Behind-other b e k v i l h g (none_typed p) = none_typed p
Behind-other b e k v i l h g (typed p x xs q hs) =
    typed p x xs (ground arith) (Behind-other b e k v i (omega arith) (omega arith) g hs)

Holds-snoc :
    {at : ℕ → ℕ} {r : ℕ} {xs : List ℕ} (x : ℕ)
    → at ((r + length xs) % input_buf_size) ≡ x
    → Holds at r xs
    → Holds at r (xs ++ (x ∷ []))
Holds-snoc {at} x e (stop r) = byte r x [] (ap at (omega arith) ∙ e) (stop (suc r))
Holds-snoc {at} x e (byte r y ys h hs) =
    byte r y (ys ++ (x ∷ [])) h (Holds-snoc x (ap at (omega arith) ∙ e) hs)

-- The line joins the bytes that are ready.
abbrev pub commit : List ℕ → List ℕ → List ℕ
commit ready [] = ready
commit ready (x ∷ line) = commit ready line ++ (x ∷ [])

pub length-commit : (ready line : List ℕ) → length (commit ready line) ≡ length ready + length line
length-commit ready [] = omega arith
length-commit ready (x ∷ line) =
    omega (arith, length-commit ready line, length-append (commit ready line) (x ∷ []))

pub Behind-first :
    {at : ℕ → ℕ} {p x : ℕ} {xs : List ℕ} → Behind at (suc p) (x ∷ xs) → at (p % input_buf_size) ≡ x
Behind-first (typed p x xs q hs) = q

pub Behind-rest : {at : ℕ → ℕ} {p x : ℕ} {xs : List ℕ} → Behind at (suc p) (x ∷ xs) → Behind at p xs
Behind-rest (typed p x xs q hs) = hs

pub commit-Holds :
    {at : ℕ → ℕ} {r : ℕ} (ready line : List ℕ) (e : ℕ)
    → e ≡ r + length ready + length line
    → Holds at r ready
    → Behind at e line
    → Holds at r (commit ready line)
commit-Holds ready [] e p hs b = hs
commit-Holds {at} ready (x ∷ line) zero p hs b = absurd (omega arith)
commit-Holds {at} ready (x ∷ line) (suc e) p hs b =
    Holds-snoc x (ap at (omega (arith, length-commit ready line)) ∙ Behind-first b)
      (commit-Holds ready line e (omega arith) hs (Behind-rest b))

-- The newest byte goes.
abbrev pub drop_last : List ℕ → List ℕ
drop_last [] = []
drop_last (x ∷ line) = line

-- A byte is added to the line; a newline, C('D') and the last free place make the line ready.
unfoldable pub store_view : ℕ → List ℕ → List ℕ → List ℕ × List ℕ
store_view c ready line =
    if c == newline || c == ctrl_d || length ready + length line + 1 == input_buf_size
    then (commit ready (c ∷ line), [])
    else (ready, c ∷ line)

-- What a key does to the two lists.
unfoldable pub key_view : ℕ → List ℕ → List ℕ → List ℕ × List ℕ
unfolding store_view
key_view c ready line =
    if c == ctrl_p
    then (ready, line)
    else if c == ctrl_u
    then (ready, [])
    else if c == ctrl_h || c == delete
    then (ready, drop_last line)
    else if c == 0 || not (ltb (length ready + length line) input_buf_size)
    then (ready, line)
    else store_view (if c == carriage_return then newline else c) ready line
