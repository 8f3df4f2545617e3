-- ===== src/Bcache/Tests.antt =====
-- A cache after binit, and its first bread.
use os_t.Prelude.{ℕ, ◌+◌, ◌<◌, ◌≡◌, refl, ◌≢◌, true, false, none, arith}
use os_t.Prelude.Run.{Run, ok, panic}
use os_t.Bcache.{Bcache, binit, binit_loop, link_front, bget, bread, acquire_buf, fill, walk, nbuf}
use os_t.Bcache.Inv.{Inv}
use os_t.Bcache.Calls.{Call, get, call, start, next, IsZero, binit-Inv, Reach-Inv_of_binit}
use os_t.Bcache.Clean.{binit-AllClean}
use os_t.Bcache.View.{Views, on_disk}
use os_t.Bcache.Promise.{Call-Views}

-- Byte `i` of block `n` of device `d` is d + n + i.
abbrev zeros : Bcache
zeros = record {
  buf = λ b. record {
    valid = false;
    dev = 0;
    blockno = 0;
    holder = none;
    refcnt = 0;
    bytes = λ i. 0;
  };
  next = λ b. 0;
  prev = λ b. 0;
  disk = λ d n i. d + n + i;
}

zeros-IsZero : IsZero zeros
zeros-IsZero = record { no_dev = λ b. refl; no_ref = λ b. refl; invalid = λ b. refl }

-- The cache of process 9 after it has read block 7 of device 1, which takes buffer 0, the least recently used.
abbrev got : Bcache
got = elim (bget 1 7 (binit zeros)) as (λ _. Bcache) [
  | ok (b, c) ↦ c
  | panic ↦ zeros
  | Run.out_of_fuel ↦ zeros
]

abbrev granted : Bcache
granted = elim (bread 9 1 7 (binit zeros)) as (λ _. Bcache) [
  | ok (b, h, c) ↦ c
  | panic ↦ zeros
  | Run.out_of_fuel ↦ zeros
]

got_first : bget 1 7 (binit zeros) ≡ ok (0, got)
unfolding bget walk binit binit_loop link_front
got_first = refl

bread_first : bread 9 1 7 (binit zeros) ≡ ok (0, true, granted)
unfolding bread bget acquire_buf fill walk binit binit_loop link_front
bread_first = refl

miss :
    (b : ℕ)
    → b < nbuf
    → ((binit zeros).buf b).valid ≡ true
    → ((binit zeros).buf b).dev ≡ 1
    → ((binit zeros).buf b).blockno ≢ 7
unfolding binit binit_loop link_front
miss b lt va ed eb = absurd (ground arith)

views : Views (binit zeros) 1 7 (λ i. 1 + 7 + i)
unfolding binit binit_loop link_front
views = on_disk miss refl

getting : Call (binit zeros) got
getting = get 1 7 0 got (omega arith) got_first

Reach-Inv_of_binit_example : Inv got
Reach-Inv_of_binit_example = Reach-Inv_of_binit zeros zeros-IsZero (next start (call getting))

Call-Views_example : Views got 1 7 (λ i. 1 + 7 + i)
Call-Views_example =
    Call-Views 1 7 (λ i. 1 + 7 + i) (binit-Inv zeros zeros-IsZero)
      (binit-AllClean zeros zeros-IsZero) getting (omega arith) views
