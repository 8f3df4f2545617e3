-- ===== src/Bcache/Read.antt =====
-- bread of w3/kernel/bio.c against the content that each block reads as.
use os_t.Prelude.{
  ℕ, ◌<◌, ◌≡◌, refl, sym, subst, ap, ◌∙◌, ◌≢◌, inl, inr, Bool, true, false, Option, none, some,
  List, ◌==◌, Bool-cases, Option-cases, arith,
}
use os_t.Prelude.Run.{Run, ok, panic, out_of_fuel, ok_injective, ◌>>=◌}
use os_t.Bcache.{nbuf, Bcache, set_buf, add_ref, recycle, bget, acquire_buf, fill, bread}
use os_t.Bcache.Inv.{AllClean, Sound, Inv, Got, hit, recycled, none_left, bget-Got}
use os_t.Bcache.Calls.{Owned, read, Call-Inv, Got-Inv, acquire_buf-Inv}
use os_t.Bcache.View.{Views, cached, on_disk, fill-Views}
use os_t.Bcache.Promise.{Got-Views, acquire_buf-Views}

-- The valid buffer that has a block has what the block reads as.
Views-valid :
    {c : Bcache} {dev blockno : ℕ} {v : ℕ → ℕ} (b : ℕ)
    → Sound c
    → b < nbuf
    → (c.buf b).valid ≡ true
    → (c.buf b).dev ≡ dev
    → (c.buf b).blockno ≡ blockno
    → Views c dev blockno v
    → (c.buf b).bytes ≡ v
Views-valid {c} b s lt va ed eb (cached i li vi fd fb ev) =
    let same : b ≡ i = s.unique b i lt li (s.filled b lt va) (ed ∙ sym fd) (eb ∙ sym fb) in
    ap (λ x. (c.buf x).bytes) same ∙ ev
Views-valid b s lt va ed eb (on_disk miss ev) = absurd (miss b lt va ed eb)

-- A buffer that `p` holds, with a block that reads as `v`.
pub record Granted (p dev blockno : ℕ) (v : ℕ → ℕ) (b : ℕ) (c : Bcache) : Type 0 where
  pub owned : Owned c b
  pub holds : (c.buf b).holder ≡ some p
  pub is_valid : (c.buf b).valid ≡ true
  pub has_dev : (c.buf b).dev ≡ dev
  pub has_block : (c.buf b).blockno ≡ blockno
  pub content : (c.buf b).bytes ≡ v

-- What bget leaves of the buffer that it returns.
record Referred (dev blockno b : ℕ) (c : Bcache) : Type 0 where
  owned : Owned c b
  its_dev : (c.buf b).dev ≡ dev
  its_block : (c.buf b).blockno ≡ blockno

add_ref-Referred :
    (b : ℕ) (c : Bcache) → b < nbuf → Referred ((c.buf b).dev) ((c.buf b).blockno) b (add_ref b c)
add_ref-Referred b c lt =
    let self : (b == b) ≡ true = ground arith in
    record {
      owned = record { is_buf = lt; counted = rw self (λ z. absurd (omega arith)) };
      its_dev = rw self refl;
      its_block = rw self refl;
    }

recycle-Referred :
    (dev blockno b : ℕ) (c : Bcache) → b < nbuf → Referred dev blockno b (recycle dev blockno b c)
recycle-Referred dev blockno b c lt =
    let self : (b == b) ≡ true = ground arith in
    record {
      owned = record { is_buf = lt; counted = rw self (λ z. absurd (omega arith)) };
      its_dev = rw self refl;
      its_block = rw self refl;
    }

Got-Referred :
    {dev blockno b : ℕ} {c c' : Bcache} {order : List ℕ} {r : Run (ℕ × Bcache)}
    → Got dev blockno c order r
    → r ≡ ok (b, c')
    → Referred dev blockno b c'
Got-Referred {dev} {blockno} {c = c} (hit i lt ed eb) e =
    subst (λ q. Referred dev blockno q.0 q.1) (ok_injective e)
      (subst (λ x. Referred x blockno i (add_ref i c)) ed
        (subst (λ x. Referred ((c.buf i).dev) x i (add_ref i c)) eb (add_ref-Referred i c lt)))
Got-Referred {dev} {blockno} {c = c} (recycled i lt absent f z) e =
    subst (λ q. Referred dev blockno q.0 q.1) (ok_injective e) (recycle-Referred dev blockno i c lt)
Got-Referred (none_left absent all) e = absurd (ground arith)

acquire_buf-Referred :
    (p dev blockno b : ℕ) (c : Bcache) {c' : Bcache}
    → acquire_buf p b c ≡ some c'
    → Referred dev blockno b c
    → Referred dev blockno b c' × ((c'.buf b).holder ≡ some p)
unfolding acquire_buf
acquire_buf-Referred p dev blockno b c {c'} e r = elim (Option-cases ((c.buf b).holder)) [
  | inl h ↦
      let same : set_buf b (record (c.buf b) { holder = some p }) c ≡ c' = ground arith in
      let self : (b == b) ≡ true = ground arith in
      subst (λ x. Referred dev blockno b x × ((x.buf b).holder ≡ some p)) same
        (
          record {
            owned = record { is_buf = r.owned.is_buf; counted = rw self r.owned.counted };
            its_dev = rw self r.its_dev;
            its_block = rw self r.its_block;
          },
          rw self refl,
        )
  | inr (q, h) ↦ absurd (ground arith)
]

fill-Referred :
    (p dev blockno b : ℕ) (c : Bcache)
    → Referred dev blockno b c
    → (c.buf b).holder ≡ some p
    → Referred dev blockno b (fill b c)
      × (((fill b c).buf b).holder ≡ some p)
      × (((fill b c).buf b).valid ≡ true)
unfolding fill
fill-Referred p dev blockno b c r h = elim (Bool-cases ((c.buf b).valid)) [
  | inl e ↦ rw e (r, h, e)
  | inr e ↦
      let self : (b == b) ≡ true = ground arith in
      rw e (
        record {
          owned = record { is_buf = r.owned.is_buf; counted = rw self r.owned.counted };
          its_dev = rw self r.its_dev;
          its_block = rw self r.its_block;
        },
        rw self h,
        rw self refl,
      )
]

fill-Granted :
    (p dev blockno b : ℕ) (v : ℕ → ℕ) (c : Bcache)
    → Inv c
    → Referred dev blockno b c
    → (c.buf b).holder ≡ some p
    → Views c dev blockno v
    → Granted p dev blockno v b (fill b c)
fill-Granted p dev blockno b v c inv r h w =
    let g = fill-Referred p dev blockno b c r h in
    record {
      owned = g.0.owned;
      holds = g.1;
      is_valid = g.2;
      has_dev = g.0.its_dev;
      has_block = g.0.its_block;
      content =
          Views-valid b (Call-Inv (read b r.owned) inv).sound r.owned.is_buf g.2 g.0.its_dev
            g.0.its_block (fill-Views b c r.owned.is_buf w);
    }

-- bread that does not sleep gives the process the buffer, locked and with what the block reads as, where
-- the buffers without a reference are as the disk.
pub bread_lem :
    (p dev blockno b : ℕ) (v : ℕ → ℕ) (c c' : Bcache)
    → Inv c
    → AllClean c
    → dev ≢ 0
    → Views c dev blockno v
    → bread p dev blockno c ≡ ok (b, true, c')
    → Granted p dev blockno v b c'
unfolding bread
bread_lem p dev blockno b v c c' inv clean nz w e = go (bget dev blockno c) refl e
  where
    locked : ℕ → Bcache → Option Bcache → Run (ℕ × Bool × Bcache)
    locked i c1 o = elim o as (λ _. Run (ℕ × Bool × Bcache)) [
      | none ↦ ok (i, false, c1)
      | some c2 ↦ ok (i, true, fill i c2)
    ]

    after : Run (ℕ × Bcache) → Run (ℕ × Bool × Bcache)
    after r = r >>= λ (q : ℕ × Bcache). locked q.0 q.1 (acquire_buf p q.0 q.1)

    held :
        (i : ℕ) (c1 : Bcache) (o : Option Bcache)
        → bget dev blockno c ≡ ok (i, c1)
        → acquire_buf p i c1 ≡ o
        → locked i c1 o ≡ ok (b, true, c')
        → Granted p dev blockno v b c'
    held i c1 none g a f = absurd (ground arith)
    held i c1 (some c2) g a f =
        let found = bget-Got dev blockno c inv in
        let r1 = Got-Referred found g in
        let (r2, h2) = acquire_buf-Referred p dev blockno i c1 a r1 in
        let inv2 = acquire_buf-Inv i c1 (Got-Inv inv nz found g) r1.owned p a in
        let w2 = acquire_buf-Views p i c1 a (Got-Views inv clean found g nz w) in
        subst (λ q. Granted p dev blockno v q.0 q.2) (ok_injective f)
          (fill-Granted p dev blockno i v c2 inv2 r2 h2 w2)

    go :
        (r : Run (ℕ × Bcache))
        → bget dev blockno c ≡ r
        → after r ≡ ok (b, true, c')
        → Granted p dev blockno v b c'
    go panic g f = absurd (ground arith)
    go out_of_fuel g f = absurd (ground arith)
    go (ok (i, c1)) g f = held i c1 (acquire_buf p i c1) g refl f
