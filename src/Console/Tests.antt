-- ===== src/Console/Tests.antt =====
-- A fresh console, and a line with an erased byte.
use os_t.Prelude.{ℕ, ◌≡◌, refl, Bool, true, false, some, [], ◌∷◌, ◌++◌, arith}
use os_t.Console.{
  newline, Cons, got, read_asleep, read_pass, consoleintr, erase_key, kill_line, store_key,
  consolewrite,
}
use os_t.Console.Ring.{stop, none_typed, IsConsole, key_view}
use os_t.Console.Keys.{consoleintr-IsConsole}
use os_t.Console.Lines.{InStep, read_pass-InStep, read_view, type_keys, read_pass-type_keys}
use os_t.Console.Writes.{bytes_from, consolewrite_lem}

abbrev fresh : Cons
fresh = record { buf = λ i. 0; r = 0; w = 0; e = 0 }

-- The counters are about to wrap.
abbrev wrapping : Cons
wrapping = record { buf = λ i. 0; r = 4294967295; w = 4294967295; e = 4294967295 }

wrapping-IsConsole : IsConsole wrapping [] []
wrapping-IsConsole = record {
  read = 4294967295;
  reads = refl;
  writes = refl;
  edits = refl;
  room = omega arith;
  stored = stop _;
  last = none_typed _;
  open_line = tt;
}

abbrev works : ℕ → Bool
works i = true

-- a, b, erase, c, return.
erased :
    (read_pass works false 9 9 (type_keys (b'a' ∷ b'b' ∷ 8 ∷ b'c' ∷ 13 ∷ []) wrapping)).1
    ≡ b'a' ∷ b'c' ∷ 10 ∷ []
unfolding read_pass type_keys consoleintr erase_key store_key
erased = refl

-- a, b, kill, c: nothing is ready.
killed_line :
    (read_pass works false 9 9 (type_keys (b'a' ∷ b'b' ∷ 21 ∷ b'c' ∷ []) fresh)).0 ≡ read_asleep 9
unfolding read_pass type_keys consoleintr kill_line store_key
killed_line = refl

-- C('D') behind a byte is kept for the next read, which it gives nothing.
kept_end :
    let (res, bytes, cons) = read_pass works false 9 9 (type_keys (b'a' ∷ 4 ∷ []) fresh) in
    (bytes ≡ b'a' ∷ []) × ((read_pass works false 9 9 cons).0 ≡ got 0)
unfolding read_pass type_keys consoleintr store_key
kept_end = (refl, refl)

consoleintr-IsConsole_example :
    let (ready, line) = key_view b'a' [] [] in IsConsole (consoleintr b'a' wrapping).2 ready line
consoleintr-IsConsole_example = consoleintr-IsConsole wrapping [] [] b'a' wrapping-IsConsole

read_pass-InStep_example :
    InStep (read_pass works false 4 4 wrapping) (read_view works false 4 4 []) []
read_pass-InStep_example = read_pass-InStep works false 4 4 wrapping [] [] wrapping-IsConsole

read_pass-type_keys_example :
    let (res, bytes, cons) =
      read_pass works false 9 9 (type_keys ((b'l' ∷ b's' ∷ []) ++ (newline ∷ [])) wrapping) in
    (res ≡ got 3) × (bytes ≡ b'l' ∷ b's' ∷ newline ∷ []) × IsConsole cons [] []
read_pass-type_keys_example =
    read_pass-type_keys works false (b'l' ∷ b's' ∷ []) 9 wrapping wrapping-IsConsole (ground arith)
      (omega arith) (λ i. refl) (omega arith)

consolewrite_lem_example :
    consolewrite (λ i k. some (bytes_from (λ j. j) i k)) 40 ≡ (bytes_from (λ j. j) 0 40, 40)
consolewrite_lem_example =
    consolewrite_lem (λ j. j) (λ i k. some (bytes_from (λ j. j) i k)) (λ i k. refl) 40
