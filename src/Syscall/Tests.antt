-- ===== src/Syscall/Tests.antt =====
-- Runs of w3/kernel/syscall.c.
use os_t.Prelude.{ℕ, ◌≡◌, refl, false, some, List, [], ◌∷◌, if◌then◌else◌, arith}
use os_t.Prelude.Run.{Run, ok, ◌>>=◌}
use os_t.Print.{digit_loop, add_sign, printint}
use os_t.Syscall.{Process, syscalls, monitored, syscall, run, usage, take_args, monitor_main}
use os_t.Syscall.Trace.{name_of, trace_line, syscall-traced, monitor-mask}

-- The calls other than monitor return 5.
abbrev fives : ℕ → Process → Run (ℕ × Process)
fives num p = ok (5, p)

-- Process 3 calls read, number 5, with bit 5 in its mask.
abbrev reader : Process
reader = record {
  pid = 3;
  name = b's' ∷ b'h' ∷ [];
  monitor_mask = 32;
  a0 = 32;
  a1 = 0;
  a2 = 0;
  a3 = 0;
  a4 = 0;
  a5 = 0;
  a7 = 5;
}

read_call : syscalls fives 5 reader ≡ ok (5, reader)
unfolding syscalls
read_call = refl

no_args : monitor_main ((b'm' ∷ []) ∷ (b'3' ∷ []) ∷ []) ≡ usage
unfolding monitor_main
no_args = refl

syscall-traced_example : syscall fives reader ≡ (
    syscalls fives 5 reader >>= λ (ret, p'). ok (
      some (if monitored p'.monitor_mask 5 then trace_line p'.pid (name_of 5) ret else []),
      record p' { a0 = ret },
    ))
syscall-traced_example = syscall-traced fives reader

abbrev asker : Process
asker = record reader { a7 = 22; monitor_mask = 0 }

mask_text : printint 32 10 false ≡ some (b'3' ∷ b'2' ∷ [])
unfolding printint digit_loop add_sign
mask_text = refl

monitor-mask_example :
    (monitor_main ((b'm' ∷ []) ∷ (b'3' ∷ b'2' ∷ []) ∷ (b'l' ∷ b's' ∷ []) ∷ [])
      ≡ run 32 (take_args 30 ((b'l' ∷ b's' ∷ []) ∷ [])))
    × ((line : List ℕ) × (syscall fives asker
          ≡ ok (some line, record asker { monitor_mask = 32; a0 = 0 })))
monitor-mask_example =
    monitor-mask 32 (b'm' ∷ []) (b'l' ∷ b's' ∷ []) (b'3' ∷ b'2' ∷ []) [] fives asker (omega arith)
      mask_text refl refl
