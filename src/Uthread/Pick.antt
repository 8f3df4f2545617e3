-- ===== src/Uthread/Pick.antt =====
-- thread_schedule of w5/user/uthread.c: which thread runs next.
use os_t.Prelude.{
  ℕ, zero, suc, ◌+◌, ◌-◌, ◌*◌, ◌%◌, ◌≤◌, ◌<◌, ◌≡◌, refl, sym, subst, ap, ◌∙◌, ◌≢◌, ◌⊎◌, inl, inr,
  true, false, Option, none, some, arith, if◌then◌else◌, leb, ◌==◌, Bool-cases, Option-cases,
}
use os_t.Uthread.{
  running, is_runnable, max_thread, Thread, Threads, thread_switch, find_runnable, run_thread,
  thread_schedule,
}

-- The thread `d` places behind `t`, round the array.
abbrev pub at : ℕ → ℕ → ℕ
at t d = (t + d) % max_thread

-- The first runnable thread among the `n` from `t` on is `d` places behind `t`.
pub record Next (f : ℕ → Thread) (t n j : ℕ) : Type 0 where
  pub places : ℕ
  pub near : places < n
  pub there : j ≡ at t places
  pub ready : is_runnable ((f j).state) ≡ true
  pub skipped : (e : ℕ) → e < places → is_runnable ((f (at t e)).state) ≡ false

find_runnable-Next :
    (n t : ℕ) (f : ℕ → Thread) (j : ℕ)
    → t ≤ max_thread
    → find_runnable n t f ≡ some j
    → Next f t n j
unfolding find_runnable
find_runnable-Next zero t f j le e = absurd (cc)
find_runnable-Next (suc n) t f j le e =
    let t' : ℕ = if leb max_thread t then 0 else t in
    let here : at t 0 ≡ t' = ground arith in
    elim (Bool-cases (is_runnable ((f t').state))) [
      | inl r ↦
          let j' : j ≡ t' = ground arith in
          record {
            places = 0;
            near = omega arith;
            there = j' ∙ sym here;
            ready = subst (λ x. is_runnable ((f x).state) ≡ true) (sym j') r;
            skipped = λ e' lt. absurd (omega arith);
          }
      | inr no_run ↦
          let rest = find_runnable-Next n (t' + 1) f j (ground arith) (ground arith) in
          record {
            places = suc rest.places;
            near = omega (arith, rest.near);
            there = rest.there ∙ shift t rest.places le;
            ready = rest.ready;
            skipped = λ e' lt. elim (Bool-cases (e' == 0)) [
              | inl z ↦
                  let z' : at t e' ≡ t' = ground arith in
                  subst (λ x. is_runnable ((f x).state) ≡ false) (sym z') no_run
              | inr s ↦
                  let e1 : at (t' + 1) (e' - 1) ≡ at t e' = ground arith in
                  subst (λ x. is_runnable ((f x).state) ≡ false) e1
                    (rest.skipped (e' - 1) (ground arith))
            ];
          }
    ]
  where
    shift :
        (t d : ℕ) → t ≤ max_thread → at ((if leb max_thread t then 0 else t) + 1) d ≡ at t (suc d)
    shift t d h = ground arith

find_runnable-none :
    (n t : ℕ) (f : ℕ → Thread)
    → t ≤ max_thread
    → find_runnable n t f ≡ none
    → (d : ℕ) → d < n
    → is_runnable ((f (at t d)).state) ≡ false
unfolding find_runnable
find_runnable-none zero t f le e d lt = absurd (omega arith)
find_runnable-none (suc n) t f le e d lt =
    let t' : ℕ = if leb max_thread t then 0 else t in
    elim (Bool-cases (is_runnable ((f t').state))) [
      | inl r ↦ absurd (ground arith)
      | inr no_run ↦ elim (Bool-cases (d == 0)) [
        | inl z ↦
            let z' : at t d ≡ t' = ground arith in
            subst (λ x. is_runnable ((f x).state) ≡ false) (sym z') no_run
        | inr s ↦
            let e1 : at (t' + 1) (d - 1) ≡ at t d = ground arith in
            subst (λ x. is_runnable ((f x).state) ≡ false) e1
              (find_runnable-none n (t' + 1) f (ground arith) (ground arith) (d - 1) (ground arith))
      ]
    ]

-- What a switch to the thread found does.
pub record Scheduled (s s' : Threads) : Type 0 where
  pub next : Next s.all_thread (s.current + 1) max_thread s'.current
  pub stays : s.current ≡ s'.current → s' ≡ s
  pub runs : s.current ≢ s'.current → (s'.all_thread s'.current).state ≡ running
  pub saved : s.current ≢ s'.current → (s'.all_thread s.current).context ≡ s.regs
  pub loaded : s.current ≢ s'.current → s'.regs ≡ (s.all_thread s'.current).context
  pub others : (i : ℕ) → i ≢ s'.current → (s'.all_thread i).state ≡ (s.all_thread i).state

run_thread-Scheduled :
    (n : ℕ) (s : Threads)
    → Next s.all_thread (s.current + 1) max_thread n
    → Scheduled s (run_thread n s)
unfolding run_thread thread_switch
run_thread-Scheduled n s nx = elim (Bool-cases (s.current == n)) [
  | inl same ↦
      let e : s.current ≡ n = ground arith in
      rw same (record {
        next = subst (λ x. Next s.all_thread (s.current + 1) max_thread x) (sym e) nx;
        stays = λ _. refl;
        runs = λ ne. absurd (ne refl);
        saved = λ ne. absurd (ne refl);
        loaded = λ ne. absurd (ne refl);
        others = λ i ne. refl;
      })
  | inr other ↦ rw other (record {
    next = nx;
    stays = λ e. absurd (ground arith);
    runs = λ ne. ground arith;
    saved = λ ne. ground arith;
    loaded = λ ne. ground arith;
    others = λ i ne. ground arith;
  })
]

-- thread_schedule switches to the first runnable thread behind the current one, round the array,
-- saves and loads the registers, and marks it as running; it exits exactly where no thread is
-- runnable.
pub thread_schedule_lem :
    (s : Threads)
    → s.current < max_thread
    → ((s' : Threads) × (thread_schedule s ≡ some s') × Scheduled s s')
      ⊎ ((thread_schedule s ≡ none)
          × ((i : ℕ) → i < max_thread → is_runnable ((s.all_thread i).state) ≡ false))
unfolding thread_schedule
thread_schedule_lem s lt =
    elim (Option-cases (find_runnable max_thread (s.current + 1) s.all_thread)) [
      | inl e ↦ inr (
        ap outcome e,
        λ i li.
            let d = (i + 2 * max_thread - s.current - 1) % max_thread in
            let e' : at (s.current + 1) d ≡ i = ground arith in
            subst (λ x. is_runnable ((s.all_thread x).state) ≡ false) e'
              (find_runnable-none max_thread (s.current + 1) s.all_thread (omega arith) e d
                (omega arith)),
      )
      | inr (n, e) ↦ inl (
        run_thread n s,
        ap outcome e,
        run_thread-Scheduled n s
            (find_runnable-Next max_thread (s.current + 1) s.all_thread n (omega arith) e),
      )
    ]
  where
    outcome : Option ℕ → Option Threads
    outcome o = elim o [ none ↦ none | some next ↦ some (run_thread next s) ]
