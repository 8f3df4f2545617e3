-- ===== src/Spinlock/Tests.antt =====
-- Processor 0 takes the lock.
use os_t.Prelude.{ℕ, ◌≡◌, ◌-◌, ◌&&◌, ◌==◌, refl, false, true, none, if◌then◌else◌, update}
use os_t.Prelude.Run.{ok}
use os_t.Spinlock.{
  Cpu, initlock, push_off, pop_off, holding, acquire_start, test_and_set, release_start,
}
use os_t.Spinlock.Exclusion.{
  outside, spinning, won, inside, left, Machine, start, swap, Reach, boot, step, mutual_exclusion,
  no_panic,
}

abbrev idle : Cpu
idle = record { noff = 0; intena = false; intr = true }

abbrev booted : Machine
booted = record { lock = initlock; cpus = λ i. idle; place = λ i. outside; depth = λ i. 0 }

-- A pair of push_off and pop_off leaves interrupts on, and only the outer pair turns them.
nested_pair :
    pop_off (push_off (push_off idle)) ≡ ok (record { noff = 1; intena = true; intr = false })
unfolding pop_off push_off
nested_pair = refl

at_boot : Reach booted
at_boot = boot (λ i. idle) (λ i. refl)

no_panic_example :
    (outside ≡ outside → acquire_start initlock 0 idle ≡ ok (push_off idle))
    × (outside ≡ inside → release_start initlock 0 ≡ ok (record initlock { cpu = none }))
    × (outside ≡ left
        → pop_off idle
          ≡ ok (record { noff = 0 - 1; intena = false; intr = ((0 - 1) == 0) && false }))
no_panic_example = no_panic 0 at_boot

abbrev started : Machine
started = record booted {
  cpus = update booted.cpus 0 (push_off idle);
  place = update booted.place 0 spinning;
}

abbrev swapped : Machine
swapped = record started {
  lock = (test_and_set initlock).1;
  place = update started.place 0 (if (test_and_set initlock).0 then won else spinning);
}

got_lock : Reach swapped
unfolding acquire_start holding initlock
got_lock = step (step at_boot (start 0 (push_off idle) refl refl)) (swap 0 refl)

mutual_exclusion_example : (◌≡◌ {A = ℕ} 0 0) × ((swapped.cpus 0).intr ≡ false)
unfolding test_and_set initlock
mutual_exclusion_example = mutual_exclusion 0 0 got_lock refl refl
