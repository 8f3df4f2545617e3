-- ===== src/Bcache/Calls.antt =====
-- The functions of w3/kernel/bio.c as their callers use them.
use os_t.Prelude.{
  ℕ, zero, suc, ◌+◌, ◌-◌, ◌<◌, ◌≡◌, refl, sym, subst, ap, ◌∙◌, ◌≢◌, inl, inr, true, false, none,
  some, ◌∷◌, ◌++◌, ◌==◌, Bool-cases, Option-cases, arith,
}
use os_t.Prelude.Run.{Run, ok, ok_injective}
use os_t.Bcache.{
  nbuf, head, Buf, Bcache, set_buf, link_front, unlink, is_unused, add_ref, recycle, bget,
  acquire_buf, fill, held_by, set_block, bwrite, drop_ref, brelse, bpin, bunpin, binit_loop, binit,
  set_next, set_prev,
}
use os_t.Bcache.Links.{
  IsRing, Full, to_front-IsRing, front-Full, mem-split, binit-IsRing, down-Full, down,
}
use os_t.Bcache.Inv.{
  Sound, Inv, set_buf-Inv, same_block-Allowed, Got, hit, recycled, none_left, bget-Got,
}

-- A caller has a reference to the buffer.
pub record Owned (c : Bcache) (b : ℕ) : Type 0 where
  pub is_buf : b < nbuf
  pub counted : (c.buf b).refcnt ≢ 0

-- The calls that callers make; what they need to own is a premise.
pub data Call (c : Bcache) : Bcache → Type 0 where
  get : (dev blockno b : ℕ) (c' : Bcache) → dev ≢ 0 → bget dev blockno c ≡ ok (b, c') → Call c c'
  lock : (p b : ℕ) (c' : Bcache) → Owned c b → acquire_buf p b c ≡ some c' → Call c c'
  read : (b : ℕ) → Owned c b → Call c (fill b c)
  write :
      (p b : ℕ) (c' : Bcache)
      → Owned c b
      → (c.buf b).valid ≡ true
      → bwrite p b c ≡ ok c'
      → Call c c'
  release : (p b : ℕ) (c' : Bcache) → Owned c b → brelse p b c ≡ ok c' → Call c c'
  pin : (b : ℕ) → Owned c b → Call c (bpin b c)
  unpin : (b : ℕ) → Owned c b → Call c (bunpin b c)

-- A call, or a change of the bytes by the process that holds the buffer.
pub data Step (c : Bcache) : Bcache → Type 0 where
  call : {c' : Bcache} → Call c c' → Step c c'
  edit :
      (p b : ℕ) (v : ℕ → ℕ)
      → Owned c b
      → (c.buf b).holder ≡ some p
      → Step c (set_buf b (record (c.buf b) { bytes = v }) c)

pub data Reach (s : Bcache) : Bcache → Type 0 where
  start : Reach s s
  next : {t u : Bcache} → Reach s t → Step t u → Reach s u

pub Got-Inv :
    {dev blockno b : ℕ} {c c' : Bcache} {r : Run (ℕ × Bcache)} (inv : Inv c)
    → dev ≢ 0
    → Got dev blockno c inv.order r
    → r ≡ ok (b, c')
    → Inv c'
Got-Inv {dev} {blockno} {b} {c} {c'} inv nz (hit i lt ed eb) e =
    let same : add_ref i c ≡ c' = ground arith in
    subst Inv same (
      set_buf-Inv i (record (c.buf i) { refcnt = (c.buf i).refcnt + 1 }) c inv
        (same_block-Allowed i (record (c.buf i) { refcnt = (c.buf i).refcnt + 1 }) c inv.sound lt
          refl refl (λ z. nz (sym ed ∙ z))))
Got-Inv {dev} {blockno} {b} {c} {c'} inv nz (recycled i lt absent f z) e =
    let same : recycle dev blockno i c ≡ c' = ground arith in
    subst Inv same (
      set_buf-Inv i (record (c.buf i) { dev = dev; blockno = blockno; valid = false; refcnt = 1 }) c
        inv
        (record {
          alone = λ j lj ne nz' fd fb. let a = absent j lj in ground arith;
          has_dev = λ r. nz;
          has_block = λ r. nz;
        }))
Got-Inv inv nz (none_left absent all) e = absurd (ground arith)

module _ (b : ℕ) (c : Bcache) (inv : Inv c) (own : Owned c b) where
  has_dev : (c.buf b).dev ≢ 0
  has_dev = inv.sound.referred b own.is_buf own.counted

  -- A change of the owned buffer that leaves it its block.
  owned-Inv :
      (v : Buf) → v.dev ≡ (c.buf b).dev → v.blockno ≡ (c.buf b).blockno → Inv (set_buf b v c)
  owned-Inv v ed eb =
      set_buf-Inv b v c inv
        (same_block-Allowed b v c inv.sound own.is_buf ed eb (λ z. has_dev (sym ed ∙ z)))

  drop_ref-Inv : Inv (drop_ref b c)
  drop_ref-Inv = owned-Inv (record (c.buf b) { refcnt = (c.buf b).refcnt - 1 }) refl refl

  pub fill-Inv : Inv (fill b c)
  unfolding fill
  fill-Inv = elim (Bool-cases ((c.buf b).valid)) [
    | inl e ↦ rw e inv
    | inr e ↦ rw e (
        owned-Inv
          (record (c.buf b) { bytes = c.disk ((c.buf b).dev) ((c.buf b).blockno); valid = true })
          refl refl)
  ]

  pub acquire_buf-Inv : (p : ℕ) {c' : Bcache} → acquire_buf p b c ≡ some c' → Inv c'
  unfolding acquire_buf
  acquire_buf-Inv p {c'} e = elim (Option-cases ((c.buf b).holder)) [
    | inl h ↦
        let same : set_buf b (record (c.buf b) { holder = some p }) c ≡ c' = ground arith in
        subst Inv same (owned-Inv (record (c.buf b) { holder = some p }) refl refl)
    | inr (q, h) ↦ absurd (ground arith)
  ]

  edit-Inv : (v : ℕ → ℕ) → Inv (set_buf b (record (c.buf b) { bytes = v }) c)
  edit-Inv v = owned-Inv (record (c.buf b) { bytes = v }) refl refl

  -- What bwrite makes of the disk; no other buffer has the block.
  written-Inv :
      (c.buf b).valid ≡ true
      → Inv (record c {
        disk = set_block ((c.buf b).dev) ((c.buf b).blockno) ((c.buf b).bytes) c.disk;
      })
  written-Inv va = record {
    order = inv.order;
    ring = record {
      chain = inv.ring.chain;
      distinct = inv.ring.distinct;
      headless = inv.ring.headless;
    };
    full = inv.full;
    sound = record {
      unique = inv.sound.unique;
      referred = inv.sound.referred;
      filled = inv.sound.filled;
    };
  }

  bwrite-Inv : (p : ℕ) {c' : Bcache} → (c.buf b).valid ≡ true → bwrite p b c ≡ ok c' → Inv c'
  unfolding bwrite
  bwrite-Inv p {c'} va e = elim (Bool-cases (held_by p ((c.buf b).holder))) [
    | inl h ↦ subst Inv (ok_injective (rw h at e)) (written-Inv va)
    | inr h ↦ absurd (ground arith)
  ]

  unlocked-Inv : Inv (set_buf b (record (c.buf b) { holder = none }) c)
  unlocked-Inv = owned-Inv (record (c.buf b) { holder = none }) refl refl

-- The ring with the buffer at its front.
to_front-Inv : (b : ℕ) (c : Bcache) → b < nbuf → Inv c → Inv (link_front b (unlink b c))
unfolding link_front unlink
to_front-Inv b c lt inv =
    let (xs, ys, e) = mem-split b inv.order (inv.full.complete b lt) in
    record {
      order = b ∷ (xs ++ ys);
      ring = to_front-IsRing b c xs ys (subst (IsRing c) e inv.ring);
      full = front-Full b xs ys (subst Full e inv.full);
      sound = record {
        unique = inv.sound.unique;
        referred = inv.sound.referred;
        filled = inv.sound.filled;
      };
    }

module _ (b : ℕ) (c : Bcache) (inv : Inv c) (own : Owned c b) where
  released-Inv : Inv (drop_ref b (set_buf b (record (c.buf b) { holder = none }) c))
  released-Inv =
      drop_ref-Inv b (set_buf b (record (c.buf b) { holder = none }) c) (unlocked-Inv b c inv own)
        (record { is_buf = own.is_buf; counted = rw self own.counted })
    where
      self : (b == b) ≡ true
      self = ground arith

  brelse-Inv : (p : ℕ) {c' : Bcache} → brelse p b c ≡ ok c' → Inv c'
  unfolding brelse
  brelse-Inv p {c'} e = elim (Bool-cases (held_by p ((c.buf b).holder))) [
    | inr h ↦ absurd (ground arith)
    | inl h ↦ elim (Bool-cases (is_unused c1 b)) [
      | inl u ↦
          subst Inv (ok_injective (rw (h, u) at e)) (to_front-Inv b c1 own.is_buf released-Inv)
      | inr u ↦ subst Inv (ok_injective (rw (h, u) at e)) released-Inv
    ]
  ]
    where
      c1 : Bcache
      c1 = drop_ref b (set_buf b (record (c.buf b) { holder = none }) c)

pub Call-Inv : {c c' : Bcache} → Call c c' → Inv c → Inv c'
unfolding bpin bunpin
Call-Inv {c} (get dev blockno b c' nz e) inv = Got-Inv inv nz (bget-Got dev blockno c inv) e
Call-Inv {c} (lock p b c' own e) inv = acquire_buf-Inv b c inv own p e
Call-Inv {c} (read b own) inv = fill-Inv b c inv own
Call-Inv {c} (write p b c' own va e) inv = bwrite-Inv b c inv own p va e
Call-Inv {c} (release p b c' own e) inv = brelse-Inv b c inv own p e
Call-Inv {c} (pin b own) inv =
    owned-Inv b c inv own (record (c.buf b) { refcnt = (c.buf b).refcnt + 1 }) refl refl
Call-Inv {c} (unpin b own) inv = drop_ref-Inv b c inv own

Step-Inv : {c c' : Bcache} → Step c c' → Inv c → Inv c'
Step-Inv (call st) inv = Call-Inv st inv
Step-Inv {c} (edit p b v own h) inv = edit-Inv b c inv own v

-- The buffers before binit: zeros.
pub record IsZero (c : Bcache) : Type 0 where
  pub no_dev : (b : ℕ) → (c.buf b).dev ≡ 0
  pub no_ref : (b : ℕ) → (c.buf b).refcnt ≡ 0
  pub invalid : (b : ℕ) → (c.buf b).valid ≡ false

buf-link_front : (b : ℕ) (c : Bcache) → (link_front b c).buf ≡ c.buf
unfolding link_front
buf-link_front b c = refl

buf-binit_loop : (n b : ℕ) (c : Bcache) → (binit_loop n b c).buf ≡ c.buf
unfolding binit_loop
buf-binit_loop zero b c = refl
buf-binit_loop (suc n) b c = buf-binit_loop n (b + 1) (link_front b c) ∙ buf-link_front b c

pub buf-binit : (c : Bcache) → (binit c).buf ≡ c.buf
unfolding binit
buf-binit c = buf-binit_loop nbuf 0 (set_next head head (set_prev head head c))

zero-Sound : (c : Bcache) → IsZero c → Sound c
zero-Sound c z = record {
  unique = λ i j li lj nz. absurd (nz (z.no_dev i));
  referred = λ i li r. absurd (r (z.no_ref i));
  filled = λ i li v. absurd (let f = z.invalid i in ground arith);
}

pub binit-Inv : (c : Bcache) → IsZero c → Inv (binit c)
binit-Inv c z = record {
  order = down nbuf;
  ring = binit-IsRing c;
  full = down-Full;
  sound = zero-Sound (binit c) (record {
    no_dev = λ b. ap (λ f. (f b).dev) (buf-binit c) ∙ z.no_dev b;
    no_ref = λ b. ap (λ f. (f b).refcnt) (buf-binit c) ∙ z.no_ref b;
    invalid = λ b. ap (λ f. (f b).valid) (buf-binit c) ∙ z.invalid b;
  });
}

-- From binit on, whatever the callers do with the buffers to which they have references, changes of the
-- bytes that never reach the disk included: the buffers form one ring of next and prev, and no block is in
-- two buffers.
pub Reach-Inv_of_binit : (c : Bcache) {c' : Bcache} → IsZero c → Reach (binit c) c' → Inv c'
Reach-Inv_of_binit c z start = binit-Inv c z
Reach-Inv_of_binit c z (next r st) = Step-Inv st (Reach-Inv_of_binit c z r)
