-- ===== src/Kalloc/Tests.antt =====
-- The page allocator at a kernel that ends two pages below PHYSTOP.
use os_t.Prelude.{ℕ, ◌+◌, ◌-◌, ◌*◌, ◌≡◌, refl, ◌≢◌, [], ◌∷◌, arith}
use os_t.Prelude.Run.{ok}
use os_t.Str.Words.{load64}
use os_t.Kalloc.{pg_size, phys_stop, Kmem, kalloc, freerange}
use os_t.Kalloc.Chain.{IsPage, Free, kalloc-nil}
use os_t.Kalloc.Pages.{pages_from, freerange-Free}
use os_t.Kalloc.Clients.{System, alloc, Reach, start, next, Inv, Reach-Inv}

abbrev kernel_end : ℕ
kernel_end = phys_stop - 2 * pg_size - 5

-- The two free pages.
abbrev low : ℕ
low = phys_stop - 2 * pg_size

abbrev high : ℕ
high = phys_stop - pg_size

abbrev empty : Kmem
empty = record { mem = λ a. 0; freelist = 0 }

abbrev one_free : Kmem
one_free = record { mem = λ a. 0; freelist = low }

low-IsPage : IsPage kernel_end low
low-IsPage = omega arith

high-IsPage : IsPage kernel_end high
high-IsPage = omega arith

one_free-Free : Free kernel_end one_free (low ∷ [])
unfolding load64
one_free-Free = ((refl, low-IsPage, tt, refl), omega arith)

kalloc_runs : (kalloc one_free).0 ≡ low
unfolding kalloc
kalloc_runs = refl

kalloc-nil_example : kalloc empty ≡ (0, empty)
kalloc-nil_example = kalloc-nil kernel_end empty (refl, omega arith)

freerange-Free_example :
    (k' : Kmem) × (freerange kernel_end (low + 5) phys_stop empty ≡ ok k')
    × Free kernel_end k' (pages_from high 1)
freerange-Free_example =
    freerange-Free kernel_end (low + 5) phys_stop empty (omega arith) (omega arith) (omega arith)
      (omega arith) refl

abbrev before : System
before = record { kmem = one_free; held = [] }

abbrev after : System
after = record { kmem = (kalloc one_free).1; held = (kalloc one_free).0 ∷ [] }

before-Inv : Inv kernel_end 1 before
before-Inv = record {
  pool = low ∷ [];
  is_free = one_free-Free;
  pages = tt;
  distinct = tt;
  apart = tt;
  total = refl;
}

before-after : Reach kernel_end before after
before-after = next start (alloc before nonzero)
  where
    nonzero : (kalloc one_free).0 ≢ 0
    nonzero e = omega (arith, kalloc_runs)

Reach-Inv_example : Inv kernel_end 1 after
Reach-Inv_example = Reach-Inv kernel_end 1 before-Inv before-after
