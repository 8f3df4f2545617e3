-- ===== src/Kalloc/Pages.antt =====
-- freerange and kinit of w3/kernel/kalloc.c: which pages they free.
use os_t.Prelude.{
  ℕ, zero, suc, ◌+◌, ◌-◌, ◌*◌, ◌/◌, ◌%◌, ◌≤◌, ◌<◌, ◌≡◌, refl, ap, List, [], ◌∷◌, arith, leb,
  Bool-cases, inl, inr, length,
}
use os_t.Prelude.Run.{ok}
use os_t.Kalloc.{pg_size, phys_stop, pg_round_up, Kmem, freerange_loop, freerange, kinit}
use os_t.Kalloc.Chain.{Out, IsPage, Free, kfree-Free}

-- The `n` pages from `p` on, the highest first.
pub pages_from : ℕ → ℕ → List ℕ
pages_from p zero = []
pages_from p (suc n) = (p + n * pg_size) ∷ pages_from p n

pub length-pages_from : (p n : ℕ) → length (pages_from p n) ≡ n
unfolding pages_from
length-pages_from p zero = refl
length-pages_from p (suc n) = ap suc (length-pages_from p n)

Out-pages_from : (p j n : ℕ) → n ≤ j → Out (p + j * pg_size) (pages_from p n)
unfolding pages_from
Out-pages_from p j zero h = tt
Out-pages_from p j (suc n) h = (λ e. omega arith, Out-pages_from p j n (omega arith))

module _ (kernel_end : ℕ) (p pa_end : ℕ) (aligned : p % pg_size ≡ 0) (above : kernel_end ≤ p)
    (nonzero : 0 < p) (top : pa_end ≤ phys_stop) where
  -- The loop, with `i` pages freed.
  freerange_loop-Free :
      (f i : ℕ) (k : Kmem)
      → pa_end < f + i
      → i * pg_size ≤ pa_end - p
      → Free kernel_end k (pages_from p i)
      → (k' : Kmem) × (freerange_loop kernel_end f (p + i * pg_size) pa_end k ≡ ok k')
        × Free kernel_end k' (pages_from p ((pa_end - p) / pg_size))
  unfolding freerange_loop
  freerange_loop-Free zero i k fuel done free = absurd (omega arith)
  freerange_loop-Free (suc f) i k fuel done free =
      elim (Bool-cases (leb (p + i * pg_size + pg_size) pa_end)) [
        | inl more ↦
            let page : IsPage kernel_end (p + i * pg_size) = record {
              aligned = omega arith;
              above = omega arith;
              below = ground arith;
              nonzero = omega arith;
            } in
            let (k1, run, free1, _) =
              kfree-Free kernel_end (p + i * pg_size) k (pages_from p i) page
                (Out-pages_from p i i (omega arith)) free in
            let free2 : Free kernel_end k1 (pages_from p (suc i)) = unfold pages_from in free1 in
            let (k', rest, free') =
              freerange_loop-Free f (suc i) k1 (omega arith) (ground arith) free2 in
            let next : p + i * pg_size + pg_size ≡ p + suc i * pg_size = omega arith in
            (k', rw (more, run, next) rest, free')
        | inr last ↦ let n : (pa_end - p) / pg_size ≡ i = ground arith in (k, rw last, rw n free)
      ]

-- freerange frees exactly the whole pages between its ends, rounded up at the start, if the range
-- lies in the kernel's memory; it never runs out of fuel.
pub freerange-Free :
    (kernel_end pa_start pa_end : ℕ) (k : Kmem)
    → kernel_end ≤ pa_start
    → 0 < pa_start
    → pa_start ≤ phys_stop
    → pa_end ≤ phys_stop
    → k.freelist ≡ 0
    → let p = pg_round_up pa_start in
      (k' : Kmem) × (freerange kernel_end pa_start pa_end k ≡ ok k')
      × Free kernel_end k' (pages_from p ((pa_end - p) / pg_size))
unfolding freerange pages_from
freerange-Free kernel_end pa_start pa_end k low pos small top empty =
    let p = pg_round_up pa_start in
    let (k', run, free) =
      freerange_loop-Free kernel_end p pa_end (omega arith) (omega arith) (omega arith) top
        (suc pa_end) 0 k (omega arith) (omega arith) (empty, omega arith) in
    let z : p + 0 * pg_size ≡ p = omega arith in (k', rw z at run, free)

-- kinit makes every whole page from the kernel's end up to PHYSTOP free: none is lost, and none is
-- there twice.
pub kinit-Free :
    (kernel_end : ℕ) (k : Kmem)
    → 0 < kernel_end
    → kernel_end ≤ phys_stop
    → k.freelist ≡ 0
    → let p = pg_round_up kernel_end in
      (k' : Kmem) × (kinit kernel_end k ≡ ok k')
      × Free kernel_end k' (pages_from p ((phys_stop - p) / pg_size))
unfolding kinit
kinit-Free kernel_end k pos small empty =
    freerange-Free kernel_end kernel_end phys_stop k (omega arith) pos small (omega arith) empty
