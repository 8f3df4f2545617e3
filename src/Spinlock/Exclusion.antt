-- ===== src/Spinlock/Exclusion.antt =====
-- The lock of w3/kernel/spinlock.c between processors that acquire and release it.
use os_t.Prelude.{
  ℕ, suc, ◌+◌, ◌-◌, ◌&&◌, ◌<◌, ◌≡◌, refl, inl, inr, Bool, true, false, Option, none, some,
  if◌then◌else◌, ◌==◌, update, Bool-cases, arith,
}
use os_t.Prelude.Run.{ok}
use os_t.Spinlock.{
  Cpu, Spinlock, initlock, push_off, pop_off, is_cpu, holding, acquire_start, test_and_set,
  acquire_end, release_start, release_word,
}

-- Where a processor is: outside, in the loop of acquire, behind the swap that got the lock, in the
-- critical section, between the two stores of release, and before its pop_off.
pub data Place : Type 0 where
  outside spinning won inside leaving left : Place

-- `depth` counts the push_offs of other code on each processor that have no pop_off yet.
pub record Machine : Type 0 where
  pub lock : Spinlock
  pub cpus : ℕ → Cpu
  pub place : ℕ → Place
  pub depth : ℕ → ℕ

-- Other code runs outside and in the critical section.
abbrev pub may_run : Place → Bool
may_run outside = true
may_run inside = true
may_run _ = false

pub data Step (m : Machine) : Machine → Type 0 where
  start :
      (i : ℕ) (c : Cpu)
      → m.place i ≡ outside
      → acquire_start m.lock i (m.cpus i) ≡ ok c
      → Step m (record m { cpus = update m.cpus i c; place = update m.place i spinning })
  swap :
      (i : ℕ)
      → m.place i ≡ spinning
      → Step m (record m {
        lock = (test_and_set m.lock).1;
        place = update m.place i (if (test_and_set m.lock).0 then won else spinning);
      })
  own :
      (i : ℕ)
      → m.place i ≡ won
      → Step m (record m { lock = acquire_end m.lock i; place = update m.place i inside })
  disown :
      (i : ℕ) (lk : Spinlock)
      → m.place i ≡ inside
      → release_start m.lock i ≡ ok lk
      → Step m (record m { lock = lk; place = update m.place i leaving })
  unlock :
      (i : ℕ)
      → m.place i ≡ leaving
      → Step m (record m { lock = release_word m.lock; place = update m.place i left })
  finish :
      (i : ℕ) (c : Cpu)
      → m.place i ≡ left
      → pop_off (m.cpus i) ≡ ok c
      → Step m (record m { cpus = update m.cpus i c; place = update m.place i outside })
  nest :
      (i : ℕ)
      → may_run (m.place i) ≡ true
      → Step m (record m {
        cpus = update m.cpus i (push_off (m.cpus i));
        depth = update m.depth i (suc (m.depth i));
      })
  unnest :
      (i d : ℕ) (c : Cpu)
      → may_run (m.place i) ≡ true
      → m.depth i ≡ suc d
      → pop_off (m.cpus i) ≡ ok c
      → Step m (record m { cpus = update m.cpus i c; depth = update m.depth i d })
  enable :
      (i : ℕ) (on : Bool)
      → (m.cpus i).noff ≡ 0
      → Step m (record m { cpus = update m.cpus i (record (m.cpus i) { intr = on }) })

pub data Reach : Machine → Type 0 where
  boot :
      (cpus : ℕ → Cpu)
      → ((i : ℕ) → (cpus i).noff ≡ 0)
      → Reach (record { lock = initlock; cpus = cpus; place = λ i. outside; depth = λ i. 0 })
  step : {m n : Machine} → Reach m → Step m n → Reach n

-- Between the swap that got the lock and the store that frees it.
abbrev pub in_section : Place → Bool
in_section won = true
in_section inside = true
in_section leaving = true
in_section _ = false

abbrev pub is_inside : Place → Bool
is_inside inside = true
is_inside _ = false

abbrev pub pushes : Place → ℕ
pushes outside = 0
pushes _ = 1

abbrev pub is_owned : Option ℕ → Bool
is_owned none = false
is_owned (some i) = true

pub record IsExclusive (m : Machine) : Type 0 where
  pub owner : Option ℕ
  pub word : m.lock.locked ≡ is_owned owner
  pub only : (j : ℕ) → in_section (m.place j) ≡ is_cpu owner j
  pub named : (j : ℕ) → is_cpu m.lock.cpu j ≡ is_inside (m.place j)
  pub nested : (j : ℕ) → (m.cpus j).noff ≡ m.depth j + pushes (m.place j)
  pub off : (j : ℕ) → 0 < (m.cpus j).noff → (m.cpus j).intr ≡ false

swap-IsExclusive :
    (m : Machine) (i : ℕ)
    → m.place i ≡ spinning
    → IsExclusive m
    → IsExclusive (record m {
      lock = (test_and_set m.lock).1;
      place = update m.place i (if (test_and_set m.lock).0 then won else spinning);
    })
unfolding test_and_set
swap-IsExclusive m i at_i v = elim (Bool-cases m.lock.locked) [
  | inl held ↦ record {
    owner = v.owner;
    word = ground (arith, v.word);
    only = λ j. ground (arith, v.only j, v.only i);
    named = λ j. ground (arith, v.named j, v.named i);
    nested = λ j. ground (arith, v.nested j, v.nested i);
    off = λ j h. v.off j h;
  }
  | inr free ↦ record {
    owner = some i;
    word = refl;
    only = λ j. ground (arith, v.only j, v.only i, v.word);
    named = λ j. ground (arith, v.named j, v.named i);
    nested = λ j. ground (arith, v.nested j, v.nested i);
    off = λ j h. v.off j h;
  }
]

Step-IsExclusive : {m n : Machine} → Step m n → IsExclusive m → IsExclusive n
unfolding acquire_start push_off pop_off holding acquire_end release_start release_word
Step-IsExclusive {m} (start i c at_i e) v = record {
  owner = v.owner;
  word = v.word;
  only = λ j. ground (arith, v.only j, v.only i);
  named = λ j. ground (arith, v.named j, v.named i);
  nested = λ j. ground (arith, v.nested j, v.nested i);
  off = λ j h. ground (arith, v.off j);
}
Step-IsExclusive {m} (swap i at_i) v = swap-IsExclusive m i at_i v
Step-IsExclusive {m} (own i at_i) v = record {
  owner = v.owner;
  word = v.word;
  only = λ j. ground (arith, v.only j, v.only i);
  named = λ j. ground (arith, v.named j, v.only i, v.only j);
  nested = λ j. ground (arith, v.nested j, v.nested i);
  off = λ j h. v.off j h;
}
Step-IsExclusive {m} (disown i lk at_i e) v = record {
  owner = v.owner;
  word = ground (arith, v.word);
  only = λ j. ground (arith, v.only j, v.only i);
  named = λ j. ground (arith, v.named j, v.named i, v.only i, v.only j);
  nested = λ j. ground (arith, v.nested j, v.nested i);
  off = λ j h. v.off j h;
}
Step-IsExclusive {m} (unlock i at_i) v = record {
  owner = none;
  word = refl;
  only = λ j. ground (arith, v.only j, v.only i);
  named = λ j. ground (arith, v.named j, v.named i);
  nested = λ j. ground (arith, v.nested j, v.nested i);
  off = λ j h. v.off j h;
}
Step-IsExclusive {m} (finish i c at_i e) v = record {
  owner = v.owner;
  word = v.word;
  only = λ j. ground (arith, v.only j, v.only i);
  named = λ j. ground (arith, v.named j, v.named i);
  nested = λ j. ground (arith, v.nested j, v.nested i);
  off = λ j h. ground (arith, v.off j, v.off i);
}
Step-IsExclusive {m} (nest i run) v = record {
  owner = v.owner;
  word = v.word;
  only = v.only;
  named = v.named;
  nested = λ j. ground (arith, v.nested j, v.nested i);
  off = λ j h. ground (arith, v.off j);
}
Step-IsExclusive {m} (unnest i d c run e p) v = record {
  owner = v.owner;
  word = v.word;
  only = v.only;
  named = v.named;
  nested = λ j. ground (arith, v.nested j, v.nested i);
  off = λ j h. ground (arith, v.off j, v.off i);
}
Step-IsExclusive {m} (enable i on z) v = record {
  owner = v.owner;
  word = v.word;
  only = v.only;
  named = v.named;
  nested = λ j. ground (arith, v.nested j, v.nested i);
  off = λ j h. ground (arith, v.off j, v.off i);
}

-- Whatever the processors do, the lock admits at most one to its critical section; its word and its
-- `cpu` say which; and a processor that has it, or waits for it, has its interrupts off.
pub Reach-IsExclusive : {m : Machine} → Reach m → IsExclusive m
unfolding initlock
Reach-IsExclusive (boot cpus z) = record {
  owner = none;
  word = refl;
  only = λ j. refl;
  named = λ j. refl;
  nested = λ j. ground (arith, z j);
  off = λ j h. ground (arith, z j);
}
Reach-IsExclusive (step r s) = Step-IsExclusive s (Reach-IsExclusive r)

-- In every reachable state two processors between the swap that got the lock and the store that frees it
-- are one, and their interrupts are off.
pub mutual_exclusion :
    {m : Machine} (i j : ℕ)
    → Reach m
    → in_section (m.place i) ≡ true
    → in_section (m.place j) ≡ true
    → (i ≡ j) × ((m.cpus i).intr ≡ false)
mutual_exclusion {m} i j r at_i at_j =
    let v = Reach-IsExclusive r in
    (ground (arith, v.only i, v.only j), v.off i (ground (arith, v.nested i)))

-- In every reachable state neither acquire outside of the critical section, nor release in it, nor the
-- pop_off of release panics; and that pop_off undoes one push_off.
pub no_panic :
    {m : Machine} (i : ℕ)
    → Reach m
    → (m.place i ≡ outside → acquire_start m.lock i (m.cpus i) ≡ ok (push_off (m.cpus i)))
      × (m.place i ≡ inside → release_start m.lock i ≡ ok (record m.lock { cpu = none }))
      × (m.place i ≡ left
          → pop_off (m.cpus i)
            ≡ ok (record {
              noff = (m.cpus i).noff - 1;
              intena = (m.cpus i).intena;
              intr = ((m.cpus i).noff - 1 == 0) && (m.cpus i).intena;
            }))
unfolding acquire_start release_start pop_off holding
no_panic {m} i r =
    let v = Reach-IsExclusive r in
    (
      λ e. ground (arith, v.named i),
      λ e. ground (arith, v.named i, v.only i, v.word),
      λ e. ground (arith, v.nested i, v.off i),
    )
