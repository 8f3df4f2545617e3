-- ===== src/Syscall.antt =====
-- The system calls of w3/kernel/syscall.c: argraw and argint, the table of calls and their names, and the
-- dispatch with its trace; sys_getpid and sys_monitor of w3/kernel/sysproc.c; and w3/user/monitor.c. The
-- other calls are an argument: what they return, and what they leave of the process.
pub mod Trace
mod Tests
use os_t.Prelude.{
  ℕ, zero, suc, ◌+◌, ◌-◌, ◌*◌, ◌/◌, ◌%◌, ◌^◌, Bool, true, false, ◌&&◌, ◌||◌, not, Option, none,
  some, List, [], ◌∷◌, ◌++◌, if◌then◌else◌, ◌==◌, ltb, leb, length, get_elem?,
}
use os_t.Prelude.Run.{Run, ok, panic, ◌>>=◌}
use os_t.Ulib.{atoi}
use os_t.Print.{Arg, word, text, printf}

-- What the calls use of `struct proc`; `regs` are the registers a0 to a5 and a7 of the trap frame.
pub record Process : Type 0 where
  pub pid : ℕ
  pub name : List ℕ
  pub monitor_mask : ℕ
  pub a0 : ℕ
  pub a1 : ℕ
  pub a2 : ℕ
  pub a3 : ℕ
  pub a4 : ℕ
  pub a5 : ℕ
  pub a7 : ℕ

unfoldable pub argraw : ℕ → Process → Run ℕ
argraw n p =
    if n == 0
    then ok p.a0
    else if n == 1
    then ok p.a1
    else if n == 2
    then ok p.a2
    else if n == 3
    then ok p.a3
    else if n == 4
    then ok p.a4
    else if n == 5
    then ok p.a5
    else panic

-- argint: the 32 bits of the int.
unfoldable pub argint : ℕ → Process → Run ℕ
argint n p = argraw n p >>= λ v. ok (v % 4294967296)

-- syscall_names, at the numbers of syscall.h.
unfoldable pub syscall_names : List (List ℕ)
syscall_names =
    []
    ∷ (b'f' ∷ b'o' ∷ b'r' ∷ b'k' ∷ [])
    ∷ (b'e' ∷ b'x' ∷ b'i' ∷ b't' ∷ [])
    ∷ (b'w' ∷ b'a' ∷ b'i' ∷ b't' ∷ [])
    ∷ (b'p' ∷ b'i' ∷ b'p' ∷ b'e' ∷ [])
    ∷ (b'r' ∷ b'e' ∷ b'a' ∷ b'd' ∷ [])
    ∷ (b'k' ∷ b'i' ∷ b'l' ∷ b'l' ∷ [])
    ∷ (b'e' ∷ b'x' ∷ b'e' ∷ b'c' ∷ [])
    ∷ (b'f' ∷ b's' ∷ b't' ∷ b'a' ∷ b't' ∷ [])
    ∷ (b'c' ∷ b'h' ∷ b'd' ∷ b'i' ∷ b'r' ∷ [])
    ∷ (b'd' ∷ b'u' ∷ b'p' ∷ [])
    ∷ (b'g' ∷ b'e' ∷ b't' ∷ b'p' ∷ b'i' ∷ b'd' ∷ [])
    ∷ (b's' ∷ b'b' ∷ b'r' ∷ b'k' ∷ [])
    ∷ (b'p' ∷ b'a' ∷ b'u' ∷ b's' ∷ b'e' ∷ [])
    ∷ (b'u' ∷ b'p' ∷ b't' ∷ b'i' ∷ b'm' ∷ b'e' ∷ [])
    ∷ (b'o' ∷ b'p' ∷ b'e' ∷ b'n' ∷ [])
    ∷ (b'w' ∷ b'r' ∷ b'i' ∷ b't' ∷ b'e' ∷ [])
    ∷ (b'm' ∷ b'k' ∷ b'n' ∷ b'o' ∷ b'd' ∷ [])
    ∷ (b'u' ∷ b'n' ∷ b'l' ∷ b'i' ∷ b'n' ∷ b'k' ∷ [])
    ∷ (b'l' ∷ b'i' ∷ b'n' ∷ b'k' ∷ [])
    ∷ (b'm' ∷ b'k' ∷ b'd' ∷ b'i' ∷ b'r' ∷ [])
    ∷ (b'c' ∷ b'l' ∷ b'o' ∷ b's' ∷ b'e' ∷ [])
    ∷ (b'm' ∷ b'o' ∷ b'n' ∷ b'i' ∷ b't' ∷ b'o' ∷ b'r' ∷ [])
    ∷ []

-- SYS_getpid and SYS_monitor
abbrev pub sys_getpid_num : ℕ
sys_getpid_num = 11

abbrev pub sys_monitor_num : ℕ
sys_monitor_num = 22

pub sys_getpid : Process → Run (ℕ × Process)
sys_getpid p = ok (p.pid, p)

unfoldable pub sys_monitor : Process → Run (ℕ × Process)
sys_monitor p = argint 0 p >>= λ mask. ok (0, record p { monitor_mask = mask })

-- `syscalls[num]()`, with the calls of other parts.
unfoldable pub syscalls : (ℕ → Process → Run (ℕ × Process)) → ℕ → Process → Run (ℕ × Process)
syscalls others num p =
    if num == sys_monitor_num
    then sys_monitor p
    else if num == sys_getpid_num
    then sys_getpid p
    else others num p

-- `num > 0 && num < NELEM(syscalls)`, for the 32 bits of the int `num`: every entry between is there.
abbrev pub has_call : ℕ → Bool
has_call num = ltb 0 num && ltb num 23

-- `p->monitor_mask & (1 << num)`
abbrev pub monitored : ℕ → ℕ → Bool
monitored mask num = mask / 2 ^ num % 2 == 1

-- "%d: syscall %s -> %d\n"
abbrev pub trace_format : List ℕ
trace_format =
    b'%' ∷ b'd' ∷ b':' ∷ 32 ∷ b's' ∷ b'y' ∷ b's' ∷ b'c' ∷ b'a' ∷ b'l' ∷ b'l' ∷ 32 ∷ b'%' ∷ b's' ∷ 32
    ∷ b'-' ∷ b'>' ∷ 32 ∷ b'%' ∷ b'd' ∷ 10 ∷ []

-- "%d %s: unknown sys call %d\n"
abbrev pub unknown_format : List ℕ
unknown_format =
    b'%' ∷ b'd' ∷ 32 ∷ b'%' ∷ b's' ∷ b':' ∷ 32 ∷ b'u' ∷ b'n' ∷ b'k' ∷ b'n' ∷ b'o' ∷ b'w' ∷ b'n' ∷ 32
    ∷ b's' ∷ b'y' ∷ b's' ∷ 32 ∷ b'c' ∷ b'a' ∷ b'l' ∷ b'l' ∷ 32 ∷ b'%' ∷ b'd' ∷ 10 ∷ []

-- The part of syscall behind a call that returned `ret`: what is printed, and the process.
unfoldable pub returned : ℕ → ℕ × Process → Option (List ℕ) × Process
returned num (ret, p) =
    let p' = record p { a0 = ret } in
    if monitored p'.monitor_mask num
    then (
      printf trace_format (word p'.pid ∷ text (get_elem? syscall_names num) ∷ word ret ∷ []),
      p',
    )
    else (some [], p')

-- syscall: what it prints, `none` where printf fails, and the process.
unfoldable pub syscall :
    (ℕ → Process → Run (ℕ × Process)) → Process → Run (Option (List ℕ) × Process)
syscall others p =
    let num = p.a7 % 4294967296 in
    let call = syscalls others num p >>= λ r. ok (returned num r) in
    if has_call num
    then call
    else ok (
      printf unknown_format (word p.pid ∷ text (some p.name) ∷ word num ∷ []),
      record p { a0 = 18446744073709551615 },
    )

-- What the command monitor does: the usage message, or monitor with a mask and then exec.
pub data Command : Type 0 where
  usage : Command
  run : ℕ → List (List ℕ) → Command

-- MAXARG
abbrev pub maxarg : ℕ
maxarg = 32

abbrev pub first_byte : List ℕ → ℕ
first_byte [] = 0
first_byte (c ∷ s) = c

-- The loop that copies the arguments, of which `n` are left to take.
abbrev pub take_args : ℕ → List (List ℕ) → List (List ℕ)
take_args zero args = []
take_args (suc n) [] = []
take_args (suc n) (a ∷ args) = a ∷ take_args n args

-- main of monitor.c.
unfoldable pub monitor_main : List (List ℕ) → Command
monitor_main (prog ∷ mask ∷ cmd ∷ args) =
    if ltb (first_byte mask) b'0' || ltb b'9' (first_byte mask)
    then usage
    else run (atoi mask) (take_args (maxarg - 2) (cmd ∷ args))
monitor_main argv = usage
