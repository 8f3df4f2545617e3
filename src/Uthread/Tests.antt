-- ===== src/Uthread/Tests.antt =====
-- Threads at small tables.
use os_t.Prelude.{ℕ, ◌+◌, ◌≤◌, ◌≡◌, refl, none, some, arith, if◌then◌else◌, ◌==◌}
use os_t.Uthread.{
  free, running, runnable, ThreadContext, Threads, thread_schedule, thread_create, find_runnable,
  find_free,
}
use os_t.Uthread.Turns.{yields, turn_comes}

abbrev context : ThreadContext
context = record { ra = 0; sp = 0; s = λ i. 0 }

-- Thread 0 runs, threads 2 and 3 are runnable.
abbrev two_ready : Threads
two_ready = record {
  all_thread = λ i. record {
    stack = 0x10000 + i;
    state = if i == 0 then running else if i == 1 then free else runnable;
    context = record context { ra = i };
  };
  current = 0;
  regs = record context { ra = 99 };
}

-- No thread is free.
abbrev all_busy : Threads
all_busy = record two_ready {
  all_thread = λ i. record { stack = 0; state = running; context = context };
}

create_overflows : thread_create 7 all_busy ≡ none
unfolding thread_create find_free
create_overflows = refl

schedule_exits : thread_schedule all_busy ≡ none
unfolding thread_schedule find_runnable
schedule_exits = refl

turn_comes_example :
    (n : ℕ) × (n ≤ 3) × ((s' : Threads) × (yields n two_ready ≡ some s') × (s'.current ≡ 3))
turn_comes_example = turn_comes 2 two_ready 3 (omega arith) (omega arith) refl refl
