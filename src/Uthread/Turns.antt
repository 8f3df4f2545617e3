-- ===== src/Uthread/Turns.antt =====
-- thread_yield of w5/user/uthread.c, again and again: no runnable thread waits for ever.
use os_t.Prelude.{
  ℕ, zero, suc, ◌+◌, ◌-◌, ◌≤◌, ◌<◌, ◌≡◌, sym, subst, ap, ◌∙◌, ◌⊎◌, inl, inr, true, false, Option,
  none, some, arith, ltb, ◌==◌, Bool-cases,
}
use mathlib.Core.Bool.{false≢true}
use os_t.Uthread.{runnable, is_runnable, max_thread, Threads, set_state, thread_yield}
use os_t.Uthread.Pick.{at, thread_schedule_lem}

-- `n` yields, one after the other, each by the thread that then runs.
pub yields : ℕ → Threads → Option Threads
yields zero s = some s
yields (suc n) s = elim (thread_yield s) [ none ↦ none | some s' ↦ yields n s' ]

-- One yield, where the thread `d + 1` places behind the current one is runnable: it runs next, or it
-- is still runnable and nearer.
yield_nearer :
    (s : Threads) (d i : ℕ)
    → s.current < max_thread
    → d < max_thread
    → i ≡ at (s.current + 1) d
    → is_runnable ((s.all_thread i).state) ≡ true
    → (s' : Threads) × (thread_yield s ≡ some s')
      × (s'.current < max_thread)
      × ((s'.current ≡ i)
          ⊎ ((d' : ℕ) × (d' < d)
              × (i ≡ at (s'.current + 1) d')
              × (is_runnable ((s'.all_thread i).state) ≡ true)))
unfolding thread_yield
yield_nearer s d i lt few there ready =
    let s1 : Threads = set_state s.current runnable s in
    let ready1 : is_runnable ((s1.all_thread i).state) ≡ true = ground arith in
    elim (thread_schedule_lem s1 lt) [
      | inr (_, nobody) ↦ absurd (ground (arith, nobody i (omega arith)))
      | inl (s', e, sch) ↦
          let nx = sch.next in
          let near : nx.places ≤ d = elim (Bool-cases (ltb d nx.places)) [
            | inl past ↦
                let missed : is_runnable ((s1.all_thread i).state) ≡ false =
                  subst (λ x. is_runnable ((s1.all_thread x).state) ≡ false) (sym there)
                    (nx.skipped d (ground arith)) in
                absurd (false≢true (sym missed ∙ ready1))
            | inr fine ↦ ground arith
          ] in
          (
            s',
            e,
            omega (arith, nx.there),
            elim (Bool-cases (nx.places == d)) [
              | inl same ↦ inl (ground (arith, nx.there))
              | inr less ↦ inr (
                d - nx.places - 1,
                ground arith,
                ground (arith, nx.there),
                ap is_runnable (sch.others i (λ e'. ground (arith, nx.there))) ∙ ready1,
              )
            ],
          )
    ]

yields-suc : (n : ℕ) (s s' : Threads) → thread_yield s ≡ some s' → yields (suc n) s ≡ yields n s'
unfolding yields
yields-suc n s s' e =
    ap
      (λ (o : Option Threads). elim o as (λ _. Option Threads) [
        | none ↦ none
        | some t ↦ yields n t
      ])
      e

abbrev Turn : ℕ → Threads → ℕ → Type 0
Turn d s i = (n : ℕ) × (n ≤ d + 1) × ((s' : Threads) × (yields n s ≡ some s') × (s'.current ≡ i))

-- By induction on a bound `b` of the distance.
Turn-within :
    (b d : ℕ) (s : Threads) (i : ℕ)
    → d < b
    → s.current < max_thread
    → d < max_thread
    → i ≡ at (s.current + 1) d
    → is_runnable ((s.all_thread i).state) ≡ true
    → Turn d s i
unfolding yields
Turn-within zero d s i h lt few there ready = absurd (omega arith)
Turn-within (suc b) d s i h lt few there ready =
    let (s1, e, lt1, step) = yield_nearer s d i lt few there ready in
    elim step [
      | inl now ↦ (1, omega arith, (s1, yields-suc 0 s s1 e, now))
      | inr (d', near, there', ready') ↦
          let (n, le, (s2, run, now)) =
            Turn-within b d' s1 i (omega arith) lt1 (omega arith) there' ready' in
          (suc n, omega arith, (s2, yields-suc n s s1 e ∙ run, now))
    ]

-- A runnable thread gets its turn: after at most `d + 1` yields of the threads that run before it,
-- for a thread `d + 1` places behind the current one, it is the current one; none of those yields
-- exits.
pub turn_comes :
    (d : ℕ) (s : Threads) (i : ℕ)
    → s.current < max_thread
    → d < max_thread
    → i ≡ at (s.current + 1) d
    → is_runnable ((s.all_thread i).state) ≡ true
    → (n : ℕ) × (n ≤ d + 1) × ((s' : Threads) × (yields n s ≡ some s') × (s'.current ≡ i))
turn_comes d s i = Turn-within (suc d) d s i (omega arith)
