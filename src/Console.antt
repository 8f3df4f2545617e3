-- ===== src/Console.antt =====
-- w3/kernel/console.c: the input buffer of the console, a ring of INPUT_BUF_SIZE bytes with three uint
-- counters. A key is one call of consoleintr, and a pass of consoleread is what a process does between
-- two sleeps; both hold cons.lock. Whether the process is killed, and what either_copyout and
-- either_copyin do, are arguments; procdump's output is left out.
pub mod Ring
pub mod Keys
pub mod Lines
pub mod Writes
mod Tests
use os_t.Prelude.{
  ℕ, zero, suc, ◌+◌, ◌-◌, ◌%◌, Bool, true, false, ◌||◌, not, ◌&&◌, Option, none, some, List, [],
  ◌∷◌, ◌++◌, if◌then◌else◌, ◌==◌, ltb,
}

-- INPUT_BUF_SIZE
abbrev pub input_buf_size : ℕ
input_buf_size = 128

-- 2 ^ 32, where a uint wraps
abbrev pub uint_range : ℕ
uint_range = 4294967296

-- The keys.
abbrev pub newline : ℕ
newline = 10

abbrev pub carriage_return : ℕ
carriage_return = 13

abbrev pub ctrl_d : ℕ
ctrl_d = 4

abbrev pub ctrl_h : ℕ
ctrl_h = 8

abbrev pub ctrl_p : ℕ
ctrl_p = 16

abbrev pub ctrl_u : ℕ
ctrl_u = 21

abbrev pub delete : ℕ
delete = 127

-- BACKSPACE
abbrev pub backspace : ℕ
backspace = 0x100

pub record Cons : Type 0 where
  pub buf : ℕ → ℕ
  pub r : ℕ
  pub w : ℕ
  pub e : ℕ

-- The bytes that consputc sends to the uart.
unfoldable pub consputc : ℕ → List ℕ
consputc c = if c == backspace then 8 ∷ 32 ∷ 8 ∷ [] else c ∷ []

-- The loop of C('U'), with the number of bytes between w and e: the echo, and the buffer.
pub kill_line : ℕ → Cons → List ℕ × Cons
kill_line zero cons = ([], cons)
kill_line (suc n) cons =
    let last = (cons.e + uint_range - 1) % uint_range in
    let (out, cons') = kill_line n (record cons { e = last }) in
    if cons.e == cons.w || cons.buf (last % input_buf_size) == newline
    then ([], cons)
    else (consputc backspace ++ out, cons')

-- The default case of consoleintr: the echo, whether consoleread is woken, and the buffer.
pub store_key : ℕ → Cons → List ℕ × Bool × Cons
store_key c cons =
    let byte = if c == carriage_return then newline else c in
    let stored = record cons {
      buf = λ i. if i == cons.e % input_buf_size then byte else cons.buf i;
      e = (cons.e + 1) % uint_range;
    } in
    let full = (stored.e + uint_range - cons.r) % uint_range == input_buf_size in
    if not (c == 0) && ltb ((cons.e + uint_range - cons.r) % uint_range) input_buf_size
    then (if byte == newline || byte == ctrl_d || full
        then (consputc byte, true, record stored { w = stored.e })
        else (consputc byte, false, stored))
    else ([], false, cons)

-- The case of C('H') and Delete.
pub erase_key : Cons → List ℕ × Bool × Cons
erase_key cons =
    if cons.e == cons.w
    then ([], false, cons)
    else (consputc backspace, false, record cons { e = (cons.e + uint_range - 1) % uint_range })

-- consoleintr.
pub consoleintr : ℕ → Cons → List ℕ × Bool × Cons
consoleintr c cons =
    if c == ctrl_p
    then ([], false, cons)
    else if c == ctrl_u
    then (let (out, cons') = kill_line ((cons.e + uint_range - cons.w) % uint_range) cons in
        (out, false, cons'))
    else if c == ctrl_h || c == delete
    then erase_key cons
    else store_key c cons

-- How a pass of consoleread ends: with its result, with -1, or asleep with the bytes that are left.
pub data Read : Type 0 where
  got : ℕ → Read
  read_refused : Read
  read_asleep : ℕ → Read

-- A pass of consoleread of `target` bytes, with `n` of them left: its end, the bytes that
-- either_copyout has stored, and the buffer.
pub read_pass : (ℕ → Bool) → Bool → ℕ → ℕ → Cons → Read × List ℕ × Cons
read_pass copyout killed target zero cons = (got target, [], cons)
read_pass copyout killed target (suc n) cons =
    let c = cons.buf (cons.r % input_buf_size) in
    let taken = record cons { r = (cons.r + 1) % uint_range } in
    let (res, bytes, cons') = read_pass copyout killed target n taken in
    if cons.r == cons.w
    then (if killed then read_refused else read_asleep (suc n), [], cons)
    else if c == ctrl_d
    then (
      got (target - suc n),
      [],
      if ltb (suc n) target
          then record taken { r = (taken.r + uint_range - 1) % uint_range }
          else taken,
    )
    else if not (copyout (target - suc n))
    then (got (target - suc n), [], taken)
    else if c == newline
    then (got (target - n), c ∷ [], taken)
    else (res, c ∷ bytes, cons')

-- consolewrite, in chunks of 32 bytes, with `n - i` bytes left: what either_copyin does at a place, the
-- chunks that are sent, and the result. A round takes one of its fuel, and a byte for each is enough.
pub write_chunks : (ℕ → ℕ → Option (List ℕ)) → ℕ → ℕ → ℕ → List ℕ × ℕ
write_chunks copyin zero n i = ([], i)
write_chunks copyin (suc f) n i =
    let size = if ltb (n - i) 32 then n - i else 32 in
    let rest = write_chunks copyin f n (i + size) in
    if ltb i n
    then elim (copyin i size) [ none ↦ ([], i) | some bytes ↦ (bytes ++ rest.0, rest.1) ]
    else ([], i)

pub consolewrite : (ℕ → ℕ → Option (List ℕ)) → ℕ → List ℕ × ℕ
consolewrite copyin n = write_chunks copyin n n 0
