-- ===== src/Spinlock.antt =====
-- w3/kernel/spinlock.c, with the struct cpu of w3/kernel/proc.h. What a processor does between two
-- accesses to the lock that others may see is one step: the swap, the store of `lk->cpu`, the store of 0
-- there, and the release of the word.
pub mod Exclusion
mod Tests
use os_t.Prelude.{
  ℕ, ◌+◌, ◌-◌, Bool, true, false, ◌&&◌, not, Option, none, some, if◌then◌else◌, ◌==◌, ltb,
}
use os_t.Prelude.Run.{Run, ok, panic, ◌>>=◌}

pub record Cpu : Type 0 where
  pub noff : ℕ
  pub intena : Bool
  -- whether interrupts are on, which intr_get tells
  pub intr : Bool

pub record Spinlock : Type 0 where
  pub locked : Bool
  pub cpu : Option ℕ

pub initlock : Spinlock
initlock = record { locked = false; cpu = none }

pub push_off : Cpu → Cpu
push_off c = record {
  noff = c.noff + 1;
  intena = if c.noff == 0 then c.intr else c.intena;
  intr = false;
}

pub pop_off : Cpu → Run Cpu
pop_off c =
    if c.intr
    then panic
    else if ltb c.noff 1
    then panic
    else ok (record { noff = c.noff - 1; intena = c.intena; intr = (c.noff - 1 == 0) && c.intena })

-- `lk->cpu == mycpu()`
abbrev pub is_cpu : Option ℕ → ℕ → Bool
is_cpu none i = false
is_cpu (some j) i = j == i

-- holding, on processor `i`.
pub holding : Spinlock → ℕ → Bool
holding lk i = lk.locked && is_cpu lk.cpu i

-- acquire up to its loop.
pub acquire_start : Spinlock → ℕ → Cpu → Run Cpu
acquire_start lk i c = if holding lk i then panic else ok (push_off c)

-- A swap of the loop: whether it got the lock, and the lock.
pub test_and_set : Spinlock → Bool × Spinlock
test_and_set lk = (not lk.locked, record lk { locked = true })

-- `lk->cpu = mycpu()`
pub acquire_end : Spinlock → ℕ → Spinlock
acquire_end lk i = record lk { cpu = some i }

-- release up to its fence.
pub release_start : Spinlock → ℕ → Run Spinlock
release_start lk i = if not (holding lk i) then panic else ok (record lk { cpu = none })

-- __sync_lock_release
pub release_word : Spinlock → Spinlock
release_word lk = record lk { locked = false }
