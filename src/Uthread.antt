-- ===== src/Uthread.antt =====
-- w5/user/uthread.c: user-level threads, switched by hand. A thread is its index in `all_thread`.
-- thread_switch is w5/user/uthread_switch.S: it stores the registers in the old thread's context and
-- loads those of the new one.
pub mod Pick
pub mod Create
pub mod Turns
mod Tests
use os_t.Prelude.{
  ℕ, zero, suc, ◌+◌, ◌*◌, Bool, true, false, Option, none, some, if◌then◌else◌, leb, ltb, ◌==◌,
}

-- FREE, RUNNING, RUNNABLE
pub data ThreadState : Type 0 where
  free running runnable : ThreadState

abbrev pub is_free : ThreadState → Bool
is_free free = true
is_free _ = false

abbrev pub is_runnable : ThreadState → Bool
is_runnable runnable = true
is_runnable _ = false

abbrev pub stack_size : ℕ
stack_size = 8192

abbrev pub max_thread : ℕ
max_thread = 4

-- `struct thread_context`; `s i` is the register s<i>.
pub record ThreadContext : Type 0 where
  pub ra : ℕ
  pub sp : ℕ
  pub s : ℕ → ℕ

-- `struct thread`, with the address of its stack for the stack.
pub record Thread : Type 0 where
  pub stack : ℕ
  pub state : ThreadState
  pub context : ThreadContext

pub record Threads : Type 0 where
  pub all_thread : ℕ → Thread
  pub current : ℕ
  pub regs : ThreadContext

abbrev pub update : (ℕ → Thread) → ℕ → Thread → ℕ → Thread
update f i t j = if i == j then t else f j

abbrev pub set_state : ℕ → ThreadState → Threads → Threads
set_state i st s = record s {
  all_thread = update s.all_thread i (record (s.all_thread i) { state = st });
}

pub thread_init : Threads → Threads
thread_init s = set_state 0 running (record s { current = 0 })

pub thread_switch : ℕ → ℕ → Threads → Threads
thread_switch old new s =
    let saved = update s.all_thread old (record (s.all_thread old) { context = s.regs }) in
    record s { all_thread = saved; regs = (saved new).context }

-- The rounds left of the search, at the thread `t`.
pub find_runnable : ℕ → ℕ → (ℕ → Thread) → Option ℕ
find_runnable zero t f = none
find_runnable (suc n) t f =
    let t' = if leb max_thread t then 0 else t in
    let rest = find_runnable n (t' + 1) f in if is_runnable ((f t').state) then some t' else rest

-- The thread found becomes the current one.
pub run_thread : ℕ → Threads → Threads
run_thread next s =
    if s.current == next
    then s
    else thread_switch s.current next (record (set_state next running s) { current = next })

-- `none` is the exit when no thread is runnable.
pub thread_schedule : Threads → Option Threads
thread_schedule s = elim (find_runnable max_thread (s.current + 1) s.all_thread) [
  | none ↦ none
  | some next ↦ some (run_thread next s)
]

-- The loop of thread_create: the first free thread from `t` on, or the end of the array.
pub find_free : ℕ → ℕ → (ℕ → Thread) → ℕ
find_free zero t f = t
find_free (suc n) t f =
    let rest = find_free n (t + 1) f in if is_free ((f t).state) then t else rest

-- `none` is a write behind the end of all_thread, which C leaves undefined.
pub thread_create : ℕ → Threads → Option Threads
thread_create func s =
    let t = find_free max_thread 0 s.all_thread in
    let th = s.all_thread t in
    if ltb t max_thread
    then some (record s {
      all_thread = update s.all_thread t (record th {
        state = runnable;
        context = record (th.context) { ra = func; sp = th.stack + stack_size };
      });
    })
    else none

pub thread_yield : Threads → Option Threads
thread_yield s = thread_schedule (set_state s.current runnable s)
