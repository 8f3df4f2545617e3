-- ===== src/Uthread/Create.antt =====
-- thread_create of w5/user/uthread.c: where a new thread starts.
use os_t.Prelude.{
  ℕ, zero, suc, ◌+◌, ◌≤◌, ◌<◌, ◌≡◌, refl, ◌≢◌, ◌⊎◌, inl, inr, true, false, none, some, arith, ltb,
  ◌==◌, Bool-cases,
}
use os_t.Uthread.{
  runnable, is_free, max_thread, stack_size, Thread, Threads, update, find_free, thread_create,
}

-- The first free thread, or the end of the array.
record FirstFree (f : ℕ → Thread) (lo hi t : ℕ) : Type 0 where
  above : lo ≤ t
  below : t ≤ hi
  is_free_there : t < hi → is_free ((f t).state) ≡ true
  first : (i : ℕ) → lo ≤ i → i < t → is_free ((f i).state) ≡ false

find_free-FirstFree :
    (n lo hi : ℕ) (f : ℕ → Thread) → lo + n ≡ hi → FirstFree f lo hi (find_free n lo f)
unfolding find_free
find_free-FirstFree zero lo hi f e = record {
  above = omega arith;
  below = omega arith;
  is_free_there = λ lt. absurd (omega arith);
  first = λ i a b. absurd (omega arith);
}
find_free-FirstFree (suc n) lo hi f e = elim (Bool-cases (is_free ((f lo).state))) [
  | inl yes_free ↦ rw yes_free (record {
    above = omega arith;
    below = omega arith;
    is_free_there = λ _. yes_free;
    first = λ i a b. absurd (omega arith);
  })
  | inr taken ↦
      let r = find_free-FirstFree n (lo + 1) hi f (omega arith) in
      rw taken (record {
        above = omega (arith, r.above);
        below = r.below;
        is_free_there = r.is_free_there;
        first = λ i a b. elim (Bool-cases (lo == i)) [
          | inl here ↦ ground arith
          | inr past ↦ r.first i (ground arith) b
        ];
      })
]

-- What thread_create sets up in the slot `t`.
pub record Created (func t : ℕ) (s s' : Threads) : Type 0 where
  pub inside : t < max_thread
  pub was_free : is_free ((s.all_thread t).state) ≡ true
  pub earlier : (i : ℕ) → i < t → is_free ((s.all_thread i).state) ≡ false
  pub ready : (s'.all_thread t).state ≡ runnable
  pub entry : (s'.all_thread t).context.ra ≡ func
  pub top : (s'.all_thread t).context.sp ≡ (s.all_thread t).stack + stack_size
  pub others : (i : ℕ) → i ≢ t → s'.all_thread i ≡ s.all_thread i

-- thread_create starts the function in the first free thread, on its own stack, and touches no
-- other thread; it writes behind the array exactly where no thread is free.
pub thread_create_lem :
    (func : ℕ) (s : Threads)
    → ((t : ℕ) × (s' : Threads) × (thread_create func s ≡ some s') × Created func t s s')
      ⊎ ((thread_create func s ≡ none)
          × ((i : ℕ) → i < max_thread → is_free ((s.all_thread i).state) ≡ false))
unfolding thread_create
thread_create_lem func s = elim (Bool-cases (ltb t max_thread)) [
  | inl room ↦ inl (
    t,
    record s { all_thread = update s.all_thread t created },
    rw room refl,
    record {
      inside = ground arith;
      was_free = r.is_free_there (ground arith);
      earlier = λ i lt. r.first i (omega arith) lt;
      ready = ground arith;
      entry = ground arith;
      top = ground arith;
      others = λ i ne. ground arith;
    },
  )
  | inr full ↦ inr (rw full refl, λ i lt. r.first i (omega arith) (ground (arith, r.below)))
]
  where
    t : ℕ
    t = find_free max_thread 0 s.all_thread

    r : FirstFree s.all_thread 0 max_thread t
    r = find_free-FirstFree max_thread 0 max_thread s.all_thread (omega arith)

    created : Thread
    created =
        let th = s.all_thread t in
        record th {
          state = runnable;
          context = record (th.context) { ra = func; sp = th.stack + stack_size };
        }
