-- ===== src/Bcache/Clean.antt =====
-- Callers of w3/kernel/bio.c that do not drop the last reference to a buffer that they have changed. They
-- write it to the disk first, or pin it, as log_write does; writei of fs.c does not, where a copy fails.
use os_t.Prelude.{
  ℕ, ◌+◌, ◌-◌, ◌≡◌, refl, subst, ap, ◌∙◌, inl, inr, true, ◌&&◌, false, none, some, ◌==◌, Bool-cases,
  Option-cases, arith,
}
use os_t.Prelude.Run.{Run, ok, ok_injective}
use os_t.Bcache.{
  Buf, Bcache, set_buf, link_front, unlink, is_unused, acquire_buf, fill, held_by, set_block,
  bwrite, drop_ref, brelse, bpin, bunpin, binit,
}
use os_t.Bcache.Inv.{Clean, AllClean, Inv, Got, hit, recycled, none_left, bget-Got}
use os_t.Bcache.Calls.{
  Owned, get, lock, read, write, release, pin, unpin, Step, call, edit, IsZero, buf-binit,
}

-- The last reference may go only if the buffer is as the disk.
abbrev pub MayDrop : Bcache → ℕ → Type 0
MayDrop c b = (c.buf b).refcnt ≡ 1 → (c.buf b).valid ≡ true → Clean c (c.buf b)

-- What a careful caller sees to.
abbrev pub IsCareful : {c c' : Bcache} → Step c c' → Type 0
IsCareful {c} (call (release p b c' own e)) = MayDrop c b
IsCareful {c} (call (unpin b own)) = MayDrop c b
IsCareful st = Unit {0}

set_buf-AllClean :
    (b : ℕ) (v : Buf) (c : Bcache)
    → AllClean c
    → (v.refcnt ≡ 0 → v.valid ≡ true → Clean c v)
    → AllClean (set_buf b v c)
set_buf-AllClean b v c clean cl i li = elim (Bool-cases (b == i)) [
  | inl e ↦ rw e cl
  | inr e ↦ rw e (clean i li)
]

Got-AllClean :
    {dev blockno b : ℕ} {c c' : Bcache} {r : Run (ℕ × Bcache)} (inv : Inv c)
    → AllClean c
    → Got dev blockno c inv.order r
    → r ≡ ok (b, c')
    → AllClean c'
Got-AllClean {c = c} inv clean (hit i lt ed eb) e =
    subst AllClean (ap (λ q. q.1) (ok_injective e)) (
      set_buf-AllClean i (record (c.buf i) { refcnt = (c.buf i).refcnt + 1 }) c clean
        (λ z. absurd (omega arith)))
Got-AllClean {dev} {blockno} {c = c} inv clean (recycled i lt absent f z) e =
    subst AllClean (ap (λ q. q.1) (ok_injective e)) (
      set_buf-AllClean i
        (record (c.buf i) { dev = dev; blockno = blockno; valid = false; refcnt = 1 }) c clean
        (λ z'. absurd (omega arith)))
Got-AllClean inv clean (none_left absent all) e = absurd (ground arith)

module _ (b : ℕ) (c : Bcache) (inv : Inv c) (clean : AllClean c) (own : Owned c b) where
  fill-AllClean : AllClean (fill b c)
  unfolding fill
  fill-AllClean = elim (Bool-cases ((c.buf b).valid)) [
    | inl e ↦ rw e clean
    | inr e ↦ rw e (
        set_buf-AllClean b
          (record (c.buf b) { bytes = c.disk ((c.buf b).dev) ((c.buf b).blockno); valid = true }) c
          clean (λ z va. refl))
  ]

  acquire_buf-AllClean : (p : ℕ) {c' : Bcache} → acquire_buf p b c ≡ some c' → AllClean c'
  unfolding acquire_buf
  acquire_buf-AllClean p {c'} e = elim (Option-cases ((c.buf b).holder)) [
    | inl h ↦
        let same : set_buf b (record (c.buf b) { holder = some p }) c ≡ c' = ground arith in
        subst AllClean same
          (set_buf-AllClean b (record (c.buf b) { holder = some p }) c clean (clean b own.is_buf))
    | inr (q, h) ↦ absurd (ground arith)
  ]

  -- No other buffer has the block that bwrite changes on the disk.
  written-AllClean :
      AllClean
        (record c { disk = set_block ((c.buf b).dev) ((c.buf b).blockno) ((c.buf b).bytes) c.disk })
  written-AllClean i li z v =
      elim (Bool-cases ((c.buf i).dev == (c.buf b).dev && (c.buf i).blockno == (c.buf b).blockno)) [
        | inl e ↦ absurd (
            let same : b ≡ i =
              inv.sound.unique b i own.is_buf li (inv.sound.referred b own.is_buf own.counted)
                (ground arith) (ground arith) in
            own.counted (ap (λ j. (c.buf j).refcnt) same ∙ z))
        | inr e ↦ rw e (clean i li z v)
      ]

  bwrite-AllClean : (p : ℕ) {c' : Bcache} → bwrite p b c ≡ ok c' → AllClean c'
  unfolding bwrite
  bwrite-AllClean p {c'} e = elim (Bool-cases (held_by p ((c.buf b).holder))) [
    | inl h ↦ subst AllClean (ok_injective (rw h at e)) written-AllClean
    | inr h ↦ absurd (ground arith)
  ]

  drop_ref-AllClean : MayDrop c b → AllClean (drop_ref b c)
  drop_ref-AllClean may =
      set_buf-AllClean b (record (c.buf b) { refcnt = (c.buf b).refcnt - 1 }) c clean
        (λ z va. may (let o = own.counted in omega arith) va)

  brelse-AllClean : (p : ℕ) {c' : Bcache} → MayDrop c b → brelse p b c ≡ ok c' → AllClean c'
  unfolding brelse link_front unlink
  brelse-AllClean p {c'} may e = elim (Bool-cases (held_by p ((c.buf b).holder))) [
    | inr h ↦ absurd (ground arith)
    | inl h ↦ elim (Bool-cases (is_unused c1 b)) [
      | inl u ↦ subst AllClean (ok_injective (rw (h, u) at e)) dropped
      | inr u ↦ subst AllClean (ok_injective (rw (h, u) at e)) dropped
    ]
  ]
    where
      c0 : Bcache
      c0 = set_buf b (record (c.buf b) { holder = none }) c

      c1 : Bcache
      c1 = drop_ref b c0

      self : (b == b) ≡ true
      self = ground arith

      dropped : AllClean c1
      dropped =
          set_buf-AllClean b (record (c0.buf b) { refcnt = (c0.buf b).refcnt - 1 }) c0
            (set_buf-AllClean b (record (c.buf b) { holder = none }) c clean (clean b own.is_buf))
            (rw self (λ z va. may (let o = own.counted in omega arith) va))

-- A step of careful callers leaves the buffers without a reference as the disk.
pub Step-AllClean :
    {c c' : Bcache} (st : Step c c') → Inv c → AllClean c → IsCareful st → AllClean c'
unfolding bpin bunpin
Step-AllClean {c} (call (get dev blockno b c' nz e)) inv clean careful =
    Got-AllClean inv clean (bget-Got dev blockno c inv) e
Step-AllClean {c} (call (lock p b c' own e)) inv clean careful =
    acquire_buf-AllClean b c inv clean own p e
Step-AllClean {c} (call (read b own)) inv clean careful = fill-AllClean b c inv clean own
Step-AllClean {c} (call (write p b c' own va e)) inv clean careful =
    bwrite-AllClean b c inv clean own p e
Step-AllClean {c} (call (release p b c' own e)) inv clean careful =
    brelse-AllClean b c inv clean own p careful e
Step-AllClean {c} (call (pin b own)) inv clean careful =
    set_buf-AllClean b (record (c.buf b) { refcnt = (c.buf b).refcnt + 1 }) c clean
      (λ z. absurd (omega arith))
Step-AllClean {c} (call (unpin b own)) inv clean careful =
    drop_ref-AllClean b c inv clean own careful
Step-AllClean {c} (edit p b v own h) inv clean careful =
    set_buf-AllClean b (record (c.buf b) { bytes = v }) c clean (λ z. absurd (own.counted z))

pub binit-AllClean : (c : Bcache) → IsZero c → AllClean (binit c)
binit-AllClean c z i li r v =
    absurd (let f = ap (λ g. (g i).valid) (buf-binit c) ∙ z.invalid i in ground arith)
