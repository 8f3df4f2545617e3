-- ===== src/Bcache.antt =====
-- w3/kernel/bio.c: the buffer cache. A buffer is its index in `bcache.buf`, and `bcache.head` is the
-- index behind the last one. `prev` and `next` are the links of the buffers, as in the source. Code
-- under bcache.lock is one step; the sleep lock of a buffer is the process that holds it. The disk is
-- the bytes of each block of each device, and virtio_disk_rw copies a block from it or to it.
pub mod Ring
pub mod Walk
pub mod Links
pub mod Inv
pub mod Calls
pub mod Clean
pub mod View
pub mod Promise
pub mod Read
mod Tests
use os_t.Prelude.{
  ℕ, zero, suc, ◌+◌, ◌-◌, Bool, true, false, ◌&&◌, Option, none, some, if◌then◌else◌, ◌==◌, update,
}
use os_t.Prelude.Run.{Run, ok, panic, ◌>>=◌}

-- NBUF
abbrev pub nbuf : ℕ
nbuf = 30

abbrev pub head : ℕ
head = nbuf

-- `struct buf`, less its links.
pub record Buf : Type 0 where
  pub valid : Bool
  pub dev : ℕ
  pub blockno : ℕ
  pub holder : Option ℕ
  pub refcnt : ℕ
  pub bytes : ℕ → ℕ

pub record Bcache : Type 0 where
  pub buf : ℕ → Buf
  pub next : ℕ → ℕ
  pub prev : ℕ → ℕ
  pub disk : ℕ → ℕ → ℕ → ℕ

abbrev pub set_buf : ℕ → Buf → Bcache → Bcache
set_buf b v c = record c { buf = update c.buf b v }

abbrev pub set_next : ℕ → ℕ → Bcache → Bcache
set_next b v c = record c { next = update c.next b v }

abbrev pub set_prev : ℕ → ℕ → Bcache → Bcache
set_prev b v c = record c { prev = update c.prev b v }

-- The four assignments that put a buffer behind the head.
pub link_front : ℕ → Bcache → Bcache
link_front b c =
    let c1 = set_prev b head (set_next b (c.next head) c) in
    set_next head b (set_prev (c1.next head) b c1)

-- The two assignments that take a buffer out.
pub unlink : ℕ → Bcache → Bcache
unlink b c = let c1 = set_prev (c.next b) (c.prev b) c in set_next (c1.prev b) (c1.next b) c1

-- The loop of binit over the `n` buffers from `b` on.
pub binit_loop : ℕ → ℕ → Bcache → Bcache
binit_loop zero b c = c
binit_loop (suc n) b c = binit_loop n (b + 1) (link_front b c)

pub binit : Bcache → Bcache
binit c = binit_loop nbuf 0 (set_next head head (set_prev head head c))

-- A walk along the links from `b` to the head: the first buffer that passes.
pub walk : (ℕ → ℕ) → (ℕ → Bool) → ℕ → ℕ → Option ℕ
walk link test zero b = none
walk link test (suc n) b =
    let rest = walk link test n (link b) in
    if b == head then none else if test b then some b else rest

abbrev pub is_block : ℕ → ℕ → Bcache → ℕ → Bool
is_block dev blockno c b = (c.buf b).dev == dev && (c.buf b).blockno == blockno

abbrev pub is_unused : Bcache → ℕ → Bool
is_unused c b = (c.buf b).refcnt == 0

abbrev pub add_ref : ℕ → Bcache → Bcache
add_ref b c = set_buf b (record (c.buf b) { refcnt = (c.buf b).refcnt + 1 }) c

abbrev pub recycle : ℕ → ℕ → ℕ → Bcache → Bcache
recycle dev blockno b c =
    set_buf b (record (c.buf b) { dev = dev; blockno = blockno; valid = false; refcnt = 1 }) c

-- bget up to its acquiresleep.
pub bget : ℕ → ℕ → Bcache → Run (ℕ × Bcache)
bget dev blockno c = elim (walk c.next (is_block dev blockno c) (nbuf + 1) (c.next head)) [
  | some b ↦ ok (b, add_ref b c)
  | none ↦ elim (walk c.prev (is_unused c) (nbuf + 1) (c.prev head)) [
    | some b ↦ ok (b, recycle dev blockno b c)
    | none ↦ panic
  ]
]

-- acquiresleep on a buffer by process `p`; `none` where another one holds it, and `p` sleeps.
pub acquire_buf : ℕ → ℕ → Bcache → Option Bcache
acquire_buf p b c = elim ((c.buf b).holder) [
  | some q ↦ none
  | none ↦ some (set_buf b (record (c.buf b) { holder = some p }) c)
]

-- The rest of bread, with the buffer locked.
pub fill : ℕ → Bcache → Bcache
fill b c =
    let v = c.buf b in
    if v.valid then c else set_buf b (record v { bytes = c.disk v.dev v.blockno; valid = true }) c

-- bread by process `p`: the buffer, and whether `p` has it. If not, `p` sleeps, and goes on by
-- acquire_buf and fill.
pub bread : ℕ → ℕ → ℕ → Bcache → Run (ℕ × Bool × Bcache)
bread p dev blockno c = do
  (b, c1) ← bget dev blockno c
  elim (acquire_buf p b c1) [ none ↦ ok (b, false, c1) | some c2 ↦ ok (b, true, fill b c2) ]

-- holdingsleep
abbrev pub held_by : ℕ → Option ℕ → Bool
held_by p none = false
held_by p (some q) = p == q

abbrev pub set_block : ℕ → ℕ → (ℕ → ℕ) → (ℕ → ℕ → ℕ → ℕ) → ℕ → ℕ → ℕ → ℕ
set_block dev blockno v disk d n = if d == dev && n == blockno then v else disk d n

pub bwrite : ℕ → ℕ → Bcache → Run Bcache
bwrite p b c =
    let v = c.buf b in
    if held_by p v.holder
    then ok (record c { disk = set_block v.dev v.blockno v.bytes c.disk })
    else panic

abbrev pub drop_ref : ℕ → Bcache → Bcache
drop_ref b c = set_buf b (record (c.buf b) { refcnt = (c.buf b).refcnt - 1 }) c

pub brelse : ℕ → ℕ → Bcache → Run Bcache
brelse p b c =
    let c1 = drop_ref b (set_buf b (record (c.buf b) { holder = none }) c) in
    if held_by p ((c.buf b).holder)
    then if is_unused c1 b then ok (link_front b (unlink b c1)) else ok c1
    else panic

pub bpin : ℕ → Bcache → Bcache
bpin b c = add_ref b c

pub bunpin : ℕ → Bcache → Bcache
bunpin b c = drop_ref b c
