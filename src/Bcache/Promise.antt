-- ===== src/Bcache/Promise.antt =====
-- The calls of w3/kernel/bio.c against the content that each block reads as.
use os_t.Prelude.{
  ℕ, ◌+◌, ◌-◌, ◌<◌, ◌≡◌, subst, ap, ◌≢◌, inl, inr, true, ◌&&◌, none, some, ◌==◌, Bool-cases,
  Option-cases, arith,
}
use os_t.Prelude.Run.{Run, ok, ok_injective}
use os_t.Bcache.{
  nbuf, Bcache, set_buf, link_front, unlink, is_unused, acquire_buf, held_by, set_block, bwrite,
  drop_ref, brelse, bpin, bunpin,
}
use os_t.Bcache.Inv.{AllClean, Inv, Got, hit, recycled, none_left, bget-Got}
use os_t.Bcache.Calls.{Call, get, lock, read, write, release, pin, unpin}
use os_t.Bcache.View.{Views, cached, on_disk, set_buf-Views, recycle-Views, fill-Views, same_block}

pub Got-Views :
    {dev blockno b d n : ℕ} {c c' : Bcache} {r : Run (ℕ × Bcache)} {v : ℕ → ℕ} (inv : Inv c)
    → AllClean c
    → Got dev blockno c inv.order r
    → r ≡ ok (b, c')
    → d ≢ 0
    → Views c d n v
    → Views c' d n v
Got-Views {d = d} {n = n} {c = c} {v = v} inv clean (hit i lt ed eb) e nz w =
    subst (λ x. Views x d n v) (ap (λ q. q.1) (ok_injective e))
      (set_buf-Views i (record (c.buf i) { refcnt = (c.buf i).refcnt + 1 }) c
        (same_block (c.buf i) ((c.buf i).holder) ((c.buf i).refcnt + 1)) w)
Got-Views {dev} {blockno} {d = d} {n = n} {c = c} {v = v} inv clean (recycled i lt absent f z) e nz
      w =
    subst (λ x. Views x d n v) (ap (λ q. q.1) (ok_injective e))
      (recycle-Views dev blockno i c inv.sound clean lt z nz w)
Got-Views inv clean (none_left absent all) e nz w = absurd (ground arith)

pub acquire_buf-Views :
    (p b : ℕ) (c : Bcache) {c' : Bcache} {d n : ℕ} {v : ℕ → ℕ}
    → acquire_buf p b c ≡ some c'
    → Views c d n v
    → Views c' d n v
unfolding acquire_buf
acquire_buf-Views p b c {c'} {d} {n} {v} e w = elim (Option-cases ((c.buf b).holder)) [
  | inl h ↦
      let same : set_buf b (record (c.buf b) { holder = some p }) c ≡ c' = ground arith in
      subst (λ x. Views x d n v) same
        (set_buf-Views b (record (c.buf b) { holder = some p }) c
          (same_block (c.buf b) (some p) ((c.buf b).refcnt)) w)
  | inr (q, h) ↦ absurd (ground arith)
]

-- bwrite puts on the disk what the block reads as.
written-Views :
    (b : ℕ) (c : Bcache) {d n : ℕ} {v : ℕ → ℕ}
    → b < nbuf
    → (c.buf b).valid ≡ true
    → Views c d n v
    → Views
        (record c { disk = set_block ((c.buf b).dev) ((c.buf b).blockno) ((c.buf b).bytes) c.disk })
        d
        n
        v
written-Views b c lt va (cached i li vi ed eb ev) = cached i li vi ed eb ev
written-Views b c {d} {n} lt va (on_disk miss ev) =
    elim (Bool-cases (d == (c.buf b).dev && n == (c.buf b).blockno)) [
      | inl e ↦ absurd (miss b lt va (ground arith) (ground arith))
      | inr e ↦ on_disk miss (rw e ev)
    ]

bwrite-Views :
    (p b : ℕ) (c : Bcache) {c' : Bcache} {d n : ℕ} {v : ℕ → ℕ}
    → b < nbuf
    → (c.buf b).valid ≡ true
    → bwrite p b c ≡ ok c'
    → Views c d n v
    → Views c' d n v
unfolding bwrite
bwrite-Views p b c {c'} {d} {n} {v} lt va e w = elim (Bool-cases (held_by p ((c.buf b).holder))) [
  | inl h ↦ subst (λ x. Views x d n v) (ok_injective (rw h at e)) (written-Views b c lt va w)
  | inr h ↦ absurd (ground arith)
]

drop_ref-Views :
    (b : ℕ) (c : Bcache) {d n : ℕ} {v : ℕ → ℕ} → Views c d n v → Views (drop_ref b c) d n v
drop_ref-Views b c =
    set_buf-Views b (record (c.buf b) { refcnt = (c.buf b).refcnt - 1 }) c
      (same_block (c.buf b) ((c.buf b).holder) ((c.buf b).refcnt - 1))

to_front-Views :
    (b : ℕ) (c : Bcache) {d n : ℕ} {v : ℕ → ℕ}
    → Views c d n v
    → Views (link_front b (unlink b c)) d n v
unfolding link_front unlink
to_front-Views b c (cached i li va ed eb ev) = cached i li va ed eb ev
to_front-Views b c (on_disk miss ev) = on_disk miss ev

brelse-Views :
    (p b : ℕ) (c : Bcache) {c' : Bcache} {d n : ℕ} {v : ℕ → ℕ}
    → brelse p b c ≡ ok c'
    → Views c d n v
    → Views c' d n v
unfolding brelse
brelse-Views p b c {c'} {d} {n} {v} e w = elim (Bool-cases (held_by p ((c.buf b).holder))) [
  | inr h ↦ absurd (ground arith)
  | inl h ↦ elim (Bool-cases (is_unused c1 b)) [
    | inl u ↦ subst (λ x. Views x d n v) (ok_injective (rw (h, u) at e)) (to_front-Views b c1 w1)
    | inr u ↦ subst (λ x. Views x d n v) (ok_injective (rw (h, u) at e)) w1
  ]
]
  where
    c0 : Bcache
    c0 = set_buf b (record (c.buf b) { holder = none }) c

    c1 : Bcache
    c1 = drop_ref b c0

    w1 : Views c1 d n v
    w1 = drop_ref-Views b c0 (
        set_buf-Views b (record (c.buf b) { holder = none }) c
          (same_block (c.buf b) none ((c.buf b).refcnt)) w)

-- Where the buffers form one ring, no block is in two of them, and those without a reference are not valid
-- or as the disk, no call changes what a block reads as: not a hit, a recycled buffer, a read, a write to
-- the disk or a release.
pub Call-Views :
    {c c' : Bcache} (dev blockno : ℕ) (v : ℕ → ℕ)
    → Inv c
    → AllClean c
    → Call c c'
    → dev ≢ 0
    → Views c dev blockno v
    → Views c' dev blockno v
unfolding bpin bunpin
Call-Views {c} d n v inv clean (get dev blockno b c' nz' e) nz w =
    Got-Views inv clean (bget-Got dev blockno c inv) e nz w
Call-Views {c} d n v inv clean (lock p b c' own e) nz w = acquire_buf-Views p b c e w
Call-Views {c} d n v inv clean (read b own) nz w = fill-Views b c own.is_buf w
Call-Views {c} d n v inv clean (write p b c' own va e) nz w = bwrite-Views p b c own.is_buf va e w
Call-Views {c} d n v inv clean (release p b c' own e) nz w = brelse-Views p b c e w
Call-Views {c} d n v inv clean (pin b own) nz w =
    set_buf-Views b (record (c.buf b) { refcnt = (c.buf b).refcnt + 1 }) c
      (same_block (c.buf b) ((c.buf b).holder) ((c.buf b).refcnt + 1)) w
Call-Views {c} d n v inv clean (unpin b own) nz w = drop_ref-Views b c w
