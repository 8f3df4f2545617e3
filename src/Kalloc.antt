-- ===== src/Kalloc.antt =====
-- w3/kernel/kalloc.c: the allocator of physical pages. A free page holds the address of the next
-- one in its first eight bytes. The parameter `kernel_end` is the linker's symbol `end`. The code
-- between acquire and release of kmem.lock is one step, so the lock is left out.
pub mod Chain
pub mod Pages
pub mod Clients
mod Tests
use os_t.Prelude.{
  ℕ, zero, suc, ◌+◌, ◌-◌, ◌*◌, ◌/◌, ◌%◌, ◌^◌, ◌||◌, not, if◌then◌else◌, ltb, leb, ◌==◌,
}
use os_t.Prelude.Run.{Run, ok, panic, out_of_fuel, ◌>>=◌}
use os_t.Str.{Mem, memset}
use os_t.Str.Words.{load64, store64}

abbrev pub pg_size : ℕ
pg_size = 4096

-- KERNBASE + 128*1024*1024
abbrev pub phys_stop : ℕ
phys_stop = 0x8000_0000 + 128 * 1024 * 1024

abbrev pub pg_round_up : ℕ → ℕ
pg_round_up sz = (sz + pg_size - 1) % 2 ^ 64 / pg_size * pg_size

-- `kmem`, with the memory that holds the list.
pub record Kmem : Type 0 where
  pub mem : Mem
  pub freelist : ℕ

module _ (kernel_end : ℕ) where
  pub kfree : ℕ → Kmem → Run Kmem
  kfree pa k =
      if not (pa % pg_size == 0) || ltb pa kernel_end || leb phys_stop pa
      then panic
      else ok (record { mem = store64 (memset pa 1 pg_size k.mem) pa k.freelist; freelist = pa })

  -- The loop of freerange at the page `p`, with fuel.
  freerange_loop : ℕ → ℕ → ℕ → Kmem → Run Kmem
  freerange_loop zero p pa_end k = out_of_fuel
  freerange_loop (suc f) p pa_end k =
      let rest = kfree p k >>= freerange_loop f (p + pg_size) pa_end in
      if leb (p + pg_size) pa_end then rest else ok k

  -- `pa_end` rounds are more than enough.
  pub freerange : ℕ → ℕ → Kmem → Run Kmem
  freerange pa_start pa_end k = freerange_loop (suc pa_end) (pg_round_up pa_start) pa_end k

  pub kinit : Kmem → Run Kmem
  kinit k = freerange kernel_end phys_stop k

-- The page, 0 if there is none.
pub kalloc : Kmem → ℕ × Kmem
kalloc k =
    let r = k.freelist in
    let next = if r == 0 then k.freelist else load64 k.mem r in
    (r, record { mem = if r == 0 then k.mem else memset r 5 pg_size k.mem; freelist = next })
