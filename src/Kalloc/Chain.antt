-- ===== src/Kalloc/Chain.antt =====
-- The free list of w3/kernel/kalloc.c as a chain of pages, and what kfree and kalloc do to it.
use os_t.Prelude.{
  ℕ, ◌+◌, ◌%◌, ◌≤◌, ◌<◌, ◌≡◌, refl, ◌∙◌, ◌≢◌, ◌⊎◌, true, false, List, [], ◌∷◌, arith, ◌==◌,
}
use os_t.Prelude.Run.{ok, panic}
use os_t.Str.{Mem, memset}
use os_t.Str.Copy.{within, memset_lem}
use os_t.Str.Words.{load64, store64, load64-store64, store64_outside, load64-congr}
use os_t.Kalloc.{pg_size, phys_stop, Kmem, kfree, kalloc}

-- `x` is none of the pages.
abbrev pub Out : ℕ → List ℕ → Type 0
Out x [] = Unit {0}
Out x (y ∷ ys) = (x ≢ y) × Out x ys

-- Two memories agree outside the page at `q`.
abbrev pub SameOutside : ℕ → Mem → Mem → Type 0
SameOutside q m m' = (b : ℕ) → (b < q) ⊎ (q + pg_size ≤ b) → m' b ≡ m b

kfree_outside : (q v : ℕ) (m : Mem) → SameOutside q m (store64 (memset q 1 pg_size m) q v)
kfree_outside q v m b h =
    store64_outside (memset q 1 pg_size m) q v b (omega arith)
    ∙ ground (arith, memset_lem q 1 pg_size m b)

memset_outside : (q c : ℕ) (m : Mem) → SameOutside q m (memset q c pg_size m)
memset_outside q c m b h = ground (arith, memset_lem q c pg_size m b)

module _ (kernel_end : ℕ) where
  -- An address that kfree accepts.
  pub record IsPage (p : ℕ) : Type 0 where
    pub aligned : p % pg_size ≡ 0
    pub above : kernel_end ≤ p
    pub below : p < phys_stop
    pub nonzero : 0 < p

  -- From `p` on, `xs` is the list of pages: all different, ended by a null pointer.
  abbrev pub Chain : Mem → ℕ → List ℕ → Type 0
  Chain m p [] = p ≡ 0
  Chain m p (x ∷ xs) = (p ≡ x) × IsPage x × Out x xs × Chain m (load64 m x) xs

  pub Chain-frame :
      (q : ℕ) (m m' : Mem) (xs : List ℕ) (p : ℕ)
      → SameOutside q m m'
      → q % pg_size ≡ 0
      → Out q xs
      → Chain m p xs
      → Chain m' p xs
  Chain-frame q m m' [] p same al out c = c
  Chain-frame q m m' (x ∷ xs) p same al out (e, page, fresh, c) =
      let word : load64 m' x ≡ load64 m x =
        load64-congr m m' x (λ b lo hi. same b (split b lo hi)) in
      (e, page, fresh, rw word (Chain-frame q m m' xs (load64 m x) same al out.1 c))
    where
      split : (b : ℕ) → x ≤ b → b < x + 8 → (b < q) ⊎ (q + pg_size ≤ b)
      split b lo hi = grind (arith, page.aligned, out.0)

  -- kfree accepts exactly the page addresses between the kernel's end and PHYSTOP.
  kfree-panic :
      (pa : ℕ) (k : Kmem)
      → (pa % pg_size ≢ 0) ⊎ (pa < kernel_end) ⊎ (phys_stop ≤ pa)
      → kfree kernel_end pa k ≡ panic
  unfolding kfree
  kfree-panic pa k h = ground arith

  -- What a state holds: the free pages in order.
  abbrev pub Free : Kmem → List ℕ → Type 0
  Free k xs = Chain k.mem k.freelist xs × (k.freelist < phys_stop)

  -- kfree of a page that is not free puts it in front of the free pages, and writes to no other
  -- page.
  pub kfree-Free :
      (pa : ℕ) (k : Kmem) (xs : List ℕ)
      → IsPage pa
      → Out pa xs
      → Free k xs
      → (k' : Kmem) × (kfree kernel_end pa k ≡ ok k')
        × Free k' (pa ∷ xs)
        × SameOutside pa k.mem k'.mem
  unfolding kfree
  kfree-Free pa k xs page out (c, small) =
      let m' = store64 (memset pa 1 pg_size k.mem) pa k.freelist in
      let same : SameOutside pa k.mem m' = kfree_outside pa k.freelist k.mem in
      (
        record { mem = m'; freelist = pa },
        ground (arith, page.aligned, page.above, page.below),
        (
          (
            refl,
            page,
            out,
            rw (load64-store64 (memset pa 1 pg_size k.mem) pa k.freelist (omega arith))
                (Chain-frame pa k.mem m' xs k.freelist same page.aligned out c),
          ),
          page.below,
        ),
        same,
      )

  pub Chain-small : (m : Mem) (p : ℕ) (xs : List ℕ) → Chain m p xs → p < phys_stop
  Chain-small m p [] c = omega arith
  Chain-small m p (x ∷ xs) c = omega (arith, c.1.below)

  -- kalloc hands out the first free page, filled with 5, and writes to no other page.
  pub kalloc-cons :
      (k : Kmem) (x : ℕ) (xs : List ℕ)
      → Free k (x ∷ xs)
      → let (r, k') = kalloc k in
        (r ≡ x)
        × Free k' xs
        × ((a : ℕ) → within x pg_size a ≡ true → k'.mem a ≡ 5)
        × SameOutside x k.mem k'.mem
  unfolding kalloc
  kalloc-cons k x xs ((e, page, out, c), small) =
      let nz : (k.freelist == 0) ≡ false = ground (arith, page.nonzero) in
      let c' : Chain (memset x 5 pg_size k.mem) (load64 k.mem x) xs =
        Chain-frame x k.mem (memset x 5 pg_size k.mem) xs (load64 k.mem x)
          (memset_outside x 5 k.mem) page.aligned out c in
      rw (nz, e)
        (
          refl,
          (c', Chain-small (memset x 5 pg_size k.mem) (load64 k.mem x) xs c'),
          λ a h. ground (arith, memset_lem x 5 pg_size k.mem a),
          memset_outside x 5 k.mem,
        )

  -- With no free page kalloc returns 0 and changes nothing.
  pub kalloc-nil : (k : Kmem) → Free k [] → kalloc k ≡ (0, k)
  unfolding kalloc
  kalloc-nil k (c, small) = ground arith
