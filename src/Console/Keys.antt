-- ===== src/Console/Keys.antt =====
-- consoleintr of w3/kernel/console.c on the two lists of the console.
use os_t.Prelude.{
  ℕ, suc, ◌+◌, ◌-◌, ◌%◌, ◌<◌, ◌≡◌, refl, ap, ◌∙◌, inl, inr, Bool, true, false, ◌||◌, ◌&&◌, not,
  List, [], ◌∷◌, length, if◌then◌else◌, ◌==◌, ltb, Bool-cases, arith,
}
use os_t.Console.{
  input_buf_size, uint_range, newline, carriage_return, ctrl_d, ctrl_h, ctrl_p, ctrl_u, delete,
  Cons, kill_line, erase_key, store_key, consoleintr,
}
use os_t.Console.Ring.{
  Holds, Behind, none_typed, typed, IsConsole, Holds-other, Behind-other, Behind-first, Behind-rest,
  commit, length-commit, commit-Holds, drop_last, store_view, key_view,
}

-- The length of the line, and of all that is held, from the counters.
line_length :
    (cons : Cons) (ready line : List ℕ)
    → IsConsole cons ready line
    → (cons.e + uint_range - cons.w) % uint_range ≡ length line
line_length cons ready line v = let v' = v.room in omega (arith, v.writes, v.edits)

held_length :
    (cons : Cons) (ready line : List ℕ)
    → IsConsole cons ready line
    → (cons.e + uint_range - cons.r) % uint_range ≡ length ready + length line
held_length cons ready line v = let v' = v.room in omega (arith, v.reads, v.edits)

-- The last byte of the line is taken off.
erase_last :
    (cons : Cons) (ready : List ℕ) (x : ℕ) (line : List ℕ)
    → IsConsole cons ready (x ∷ line)
    → IsConsole (record cons { e = (cons.e + uint_range - 1) % uint_range }) ready line
erase_last cons ready x line v = record {
  read = v.read;
  reads = v.reads;
  writes = v.writes;
  edits = let e = v.edits in omega arith;
  room = let room = v.room in omega arith;
  stored = v.stored;
  last = Behind-rest (rw place at v.last);
  open_line = v.open_line.1;
}
  where
    place : v.read + length ready + length (x ∷ line) ≡ suc (v.read + length ready + length line)
    place = omega arith

last_byte :
    (cons : Cons) (ready : List ℕ) (x : ℕ) (line : List ℕ)
    → IsConsole cons ready (x ∷ line)
    → cons.buf ((cons.e + uint_range - 1) % uint_range % input_buf_size) ≡ x
last_byte cons ready x line v =
    let e = v.edits in ap cons.buf (omega arith) ∙ Behind-first (rw place at v.last)
  where
    place : v.read + length ready + length (x ∷ line) ≡ suc (v.read + length ready + length line)
    place = omega arith

line_goes_on :
    (cons : Cons) (ready : List ℕ) (x : ℕ) (line : List ℕ)
    → IsConsole cons ready (x ∷ line)
    → (cons.e == cons.w
        || cons.buf ((cons.e + uint_range - 1) % uint_range % input_buf_size) == newline)
      ≡ false
line_goes_on cons ready x line v =
    let some_typed : (cons.e == cons.w) ≡ false =
      let w = v.writes in let e = v.edits in let room = v.room in ground arith in
    rw (last_byte cons ready x line v, some_typed) v.open_line.0

-- C('U') takes off the whole line.
kill_line-IsConsole :
    (ready line : List ℕ) (cons : Cons)
    → IsConsole cons ready line
    → IsConsole (kill_line (length line) cons).1 ready []
unfolding kill_line
kill_line-IsConsole ready [] cons v = v
kill_line-IsConsole ready (x ∷ line) cons v =
    rw (line_goes_on cons ready x line v)
      (kill_line-IsConsole ready line _ (erase_last cons ready x line v))

-- A key is stored.
added_length :
    (cons : Cons) (ready line : List ℕ)
    → IsConsole cons ready line
    → ((cons.e + 1) % uint_range + uint_range - cons.r) % uint_range
      ≡ length ready + length line + 1
added_length cons ready line v = let room = v.room in omega (arith, v.reads, v.edits)

module _ (cons : Cons) (ready line : List ℕ) (c : ℕ) (v : IsConsole cons ready line)
    (free : length ready + length line < input_buf_size) where
  abbrev place : ℕ
  place = v.read + length ready + length line

  abbrev with_byte : Cons
  with_byte = record cons {
    buf = λ i. if i == cons.e % input_buf_size then c else cons.buf i;
    e = (cons.e + 1) % uint_range;
  }

  same_place : cons.e % input_buf_size ≡ place % input_buf_size
  same_place = let e = v.edits in omega arith

  stored_ready : Holds with_byte.buf v.read ready
  stored_ready =
      Holds-other v.read place _ c same_place (omega arith) (omega arith) (omega arith) v.stored

  stored_line : Behind with_byte.buf (suc place) (c ∷ line)
  stored_line =
      typed place c line (let same = same_place in ground arith)
        (Behind-other v.read place _ c same_place (omega arith) (omega arith) (omega arith) v.last)

  typed-IsConsole : (c == newline) ≡ false → IsConsole with_byte ready (c ∷ line)
  typed-IsConsole other = record {
    read = v.read;
    reads = v.reads;
    writes = v.writes;
    edits = let e = v.edits in omega arith;
    room = omega arith;
    stored = stored_ready;
    last = rw (next_place) stored_line;
    open_line = (other, v.open_line);
  }
    where
      next_place : v.read + length ready + length (c ∷ line) ≡ suc place
      next_place = omega arith

  ready-IsConsole : IsConsole (record with_byte { w = with_byte.e }) (commit ready (c ∷ line)) []
  ready-IsConsole = record {
    read = v.read;
    reads = v.reads;
    writes = let e = v.edits in omega (arith, length-commit ready (c ∷ line));
    edits = let e = v.edits in omega (arith, length-commit ready (c ∷ line));
    room = omega (arith, length-commit ready (c ∷ line));
    stored = commit-Holds ready (c ∷ line) (suc place) (omega arith) stored_ready stored_line;
    last = none_typed _;
    open_line = tt;
  }

or_first : (p q : Bool) → (p || q) ≡ false → p ≡ false
or_first true q h = h
or_first false q h = refl

store_key-IsConsole :
    (cons : Cons) (ready line : List ℕ) (c : ℕ)
    → IsConsole cons ready line
    → (c == 0) ≡ false
    → ltb (length ready + length line) input_buf_size ≡ true
    → let after = store_view (if c == carriage_return then newline else c) ready line in
      IsConsole (store_key c cons).2 after.0 after.1
unfolding store_key store_view
store_key-IsConsole cons ready line c v nonzero free =
    let b : ℕ = if c == carriage_return then newline else c in
    let room : length ready + length line < input_buf_size = ground arith in
    rw (held_length cons ready line v, added_length cons ready line v, nonzero, free)
      (elim (Bool-cases
        (b == newline || b == ctrl_d || length ready + length line + 1 == input_buf_size)) [
          | inl now ↦ rw now (ready-IsConsole cons ready line b v room)
          | inr later ↦
              rw later
                (typed-IsConsole cons ready line b v room (or_first _ _ (or_first _ _ later)))
        ])

-- The guard of the default case.
no_room : (p q : Bool) → (p || not q) ≡ true → (not p && q) ≡ false
no_room true q h = refl
no_room false true h = cc
no_room false false h = refl

some_room : (p q : Bool) → (p || not q) ≡ false → (p ≡ false) × (q ≡ true)
some_room true q h = cc
some_room false true h = (refl, refl)
some_room false false h = cc

default-IsConsole :
    (cons : Cons) (ready line : List ℕ) (c : ℕ)
    → IsConsole cons ready line
    → let after =
        if c == 0 || not (ltb (length ready + length line) input_buf_size)
        then (ready, line)
        else store_view (if c == carriage_return then newline else c) ready line in
      IsConsole (store_key c cons).2 after.0 after.1
default-IsConsole cons ready line c v =
    elim (Bool-cases (c == 0 || not (ltb (length ready + length line) input_buf_size))) [
      | inl full ↦
          rw full (unfold store_key in rw (held_length cons ready line v, no_room _ _ full) v)
      | inr room ↦
          let both = some_room _ _ room in
          rw room (store_key-IsConsole cons ready line c v both.0 both.1)
    ]

erase_key-IsConsole :
    (cons : Cons) (ready line : List ℕ)
    → IsConsole cons ready line
    → IsConsole (erase_key cons).2 ready (drop_last line)
unfolding erase_key
erase_key-IsConsole cons ready [] v =
    let at_end : (cons.e == cons.w) ≡ true = let w = v.writes in let e = v.edits in ground arith in
    rw at_end v
erase_key-IsConsole cons ready (x ∷ line) v =
    let some_typed : (cons.e == cons.w) ≡ false =
      let w = v.writes in let e = v.edits in let room = v.room in ground arith in
    rw some_typed (erase_last cons ready x line v)

-- A key of the console does to its buffer what key_view does to the two lists: it erases and kills only
-- bytes of the line that is typed, drops a key for which there is no room, and makes the line ready at
-- its end.
pub consoleintr-IsConsole :
    (cons : Cons) (ready line : List ℕ) (c : ℕ)
    → IsConsole cons ready line
    → let (ready', line') = key_view c ready line in IsConsole (consoleintr c cons).2 ready' line'
unfolding consoleintr key_view
consoleintr-IsConsole cons ready line c v = elim (Bool-cases (c == ctrl_p)) [
  | inl dump ↦ rw dump v
  | inr p ↦ elim (Bool-cases (c == ctrl_u)) [
    | inl kill ↦ rw (p, kill, line_length cons ready line v) (kill_line-IsConsole ready line cons v)
    | inr u ↦ elim (Bool-cases (c == ctrl_h || c == delete)) [
      | inl erase ↦ rw (p, u, erase) (erase_key-IsConsole cons ready line v)
      | inr h ↦ rw (p, u, h) (default-IsConsole cons ready line c v)
    ]
  ]
]
