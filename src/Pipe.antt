-- ===== src/Pipe.antt =====
-- w3/kernel/pipe.c: a pipe as a ring of PIPESIZE bytes with two uint counters. A pass is what a
-- process does between two sleeps, with the pipe's lock held; whether it is killed, and what copyin
-- and copyout do, are arguments. The calls of wakeup are Proc's and left out.
pub mod Queue
pub mod Passes
pub mod Fifo
mod Tests
use os_t.Prelude.{
  ℕ, zero, suc, ◌+◌, ◌%◌, Bool, true, false, ◌&&◌, ◌||◌, not, Option, none, some, List, [], ◌∷◌,
  if◌then◌else◌, ◌==◌,
}

-- PIPESIZE
abbrev pub pipesize : ℕ
pipesize = 512

-- 2 ^ 32, where a uint wraps
abbrev pub uint_range : ℕ
uint_range = 4294967296

pub record Pipe : Type 0 where
  pub data_at : ℕ → ℕ
  pub nread : ℕ
  pub nwrite : ℕ
  pub readopen : Bool
  pub writeopen : Bool

-- The pipe of pipealloc, in a page that holds `bytes`.
pub pipealloc : (ℕ → ℕ) → Pipe
pipealloc bytes = record {
  data_at = bytes;
  nread = 0;
  nwrite = 0;
  readopen = true;
  writeopen = true;
}

-- pipeclose, and whether it frees the page.
pub pipeclose : Bool → Pipe → Bool × Pipe
pipeclose writable pi =
    let pi' =
      if writable then record pi { writeopen = false } else record pi { readopen = false } in
    (not pi'.readopen && not pi'.writeopen, pi')

-- `pi->data[pi->nwrite++ % PIPESIZE] = ch`
pub put : ℕ → Pipe → Pipe
put ch pi = record pi {
  data_at = λ i. if i == pi.nwrite % pipesize then ch else pi.data_at i;
  nwrite = (pi.nwrite + 1) % uint_range;
}

-- `pi->nwrite == pi->nread + PIPESIZE`
abbrev pub is_full : Pipe → Bool
is_full pi = pi.nwrite == (pi.nread + pipesize) % uint_range

abbrev pub is_empty : Pipe → Bool
is_empty pi = pi.nread == pi.nwrite

-- How a pass of pipewrite ends: with its result, with -1, or asleep at byte i.
pub data Write : Type 0 where
  wrote : ℕ → Write
  write_refused : Write
  write_asleep : ℕ → Write

-- A pass of pipewrite from byte `i` on, with `n` bytes left.
pub write_pass : (ℕ → Option ℕ) → Bool → ℕ → ℕ → Pipe → Write × Pipe
write_pass copyin killed zero i pi = (wrote i, pi)
write_pass copyin killed (suc n) i pi =
    if not pi.readopen || killed
    then (write_refused, pi)
    else if is_full pi
    then (write_asleep i, pi)
    else elim (copyin i) [
      | none ↦ (wrote i, pi)
      | some ch ↦ write_pass copyin killed n (i + 1) (put ch pi)
    ]

-- The second loop of piperead from byte `i` on: its result and the bytes that copyout has stored.
pub read_copy : (ℕ → Bool) → ℕ → ℕ → Pipe → ℕ × List ℕ × Pipe
read_copy copyout zero i pi = (i, [], pi)
read_copy copyout (suc n) i pi =
    let ch = pi.data_at (pi.nread % pipesize) in
    let pi1 = record pi { nread = (pi.nread + 1) % uint_range } in
    let (j, bytes, pi') = read_copy copyout n (i + 1) pi1 in
    if is_empty pi then (i, [], pi) else if copyout i then (j, ch ∷ bytes, pi') else (i, [], pi1)

pub data Read : Type 0 where
  got : ℕ → List ℕ → Read
  read_refused : Read
  read_asleep : Read

-- A pass of piperead.
pub read_pass : (ℕ → Bool) → Bool → ℕ → Pipe → Read × Pipe
read_pass copyout killed n pi =
    let (i, bytes, pi') = read_copy copyout n 0 pi in
    if is_empty pi && pi.writeopen
    then (if killed then read_refused else read_asleep, pi)
    else (got i bytes, pi')
