-- ===== src/Pipe/Tests.antt =====
-- A fresh pipe, three bytes written, two read.
use os_t.Prelude.{
  ℕ, ◌+◌, ◌≡◌, refl, Bool, true, false, Option, none, some, [], ◌∷◌, if◌then◌else◌, ltb, arith,
}
use os_t.Pipe.{Pipe, pipealloc, put, wrote, write_pass, read_copy, read_pass, got}
use os_t.Pipe.Queue.{stop, byte, IsQueue}
use os_t.Pipe.Passes.{Sent, no_bytes, sends}
use os_t.Pipe.Fifo.{Traffic, Step, write, read, start, next, fresh, IsFifo, Reach-IsFifo}

abbrev zeros : ℕ → ℕ
zeros i = 0

-- The user's buffer: the bytes 10, 11, 12, 13, and no memory behind.
abbrev buffer : ℕ → Option ℕ
buffer i = if ltb i 4 then some (10 + i) else none

abbrev works : ℕ → Bool
works i = true

abbrev written : Pipe
written = (write_pass buffer false 3 0 (pipealloc zeros)).1

write_runs : (write_pass buffer false 3 0 (pipealloc zeros)).0 ≡ wrote 3
unfolding write_pass put pipealloc
write_runs = refl

-- copyin fails at the fifth byte.
write_faults : (write_pass buffer false 9 0 (pipealloc zeros)).0 ≡ wrote 4
unfolding write_pass put pipealloc
write_faults = refl

read_runs : (read_pass works false 2 written).0 ≡ got 2 (10 ∷ 11 ∷ [])
unfolding read_pass read_copy write_pass put pipealloc
read_runs = refl

-- The byte whose copyout fails is gone from the pipe.
read_loses_byte :
    let (r, pi) = read_pass (λ i. false) false 2 written in
    (r ≡ got 0 []) × ((read_pass works false 1 pi).0 ≡ got 1 (11 ∷ []))
unfolding read_pass read_copy write_pass put pipealloc
read_loses_byte = (refl, refl)

abbrev sent_three : Traffic
sent_three = record (fresh zeros) { pipe = written; sent = 10 ∷ 11 ∷ 12 ∷ [] }

abbrev read_two : Traffic
read_two = record sent_three { pipe = (read_pass works false 2 written).1; received = 10 ∷ 11 ∷ [] }

three : Sent buffer 0 (10 ∷ 11 ∷ 12 ∷ [])
three = sends 0 10 (11 ∷ 12 ∷ []) refl (sends 1 11 (12 ∷ []) refl (sends 2 12 [] refl (no_bytes 3)))

after_write : Step (fresh zeros) sent_three
unfolding write_pass put pipealloc
after_write = write buffer false 3 0 (10 ∷ 11 ∷ 12 ∷ []) three refl

after_read : Step sent_three read_two
unfolding read_pass read_copy write_pass put pipealloc
after_read = read works false 2 (λ j. refl)

Reach-IsFifo_example : IsFifo read_two
Reach-IsFifo_example = Reach-IsFifo zeros (next (next start after_write) after_read)

abbrev one_byte : Pipe
one_byte = record {
  data_at = λ i. 65;
  nread = 4294967295;
  nwrite = 0;
  readopen = true;
  writeopen = true;
}

-- The write counter has wrapped.
one_byte-IsQueue : IsQueue one_byte (65 ∷ [])
one_byte-IsQueue = record {
  read = 4294967295;
  reads = refl;
  writes = refl;
  room = omega arith;
  stored = byte 4294967295 65 [] refl (stop 4294967296);
}
