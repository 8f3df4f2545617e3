-- ===== src/Kalloc/Clients.antt =====
-- The allocator of w3/kernel/kalloc.c under any sequence of calls, with clients that write to the
-- pages they hold.
use os_t.Prelude.{ℕ, ◌+◌, ◌≡◌, refl, ◌≢◌, List, [], ◌∷◌, ◌++◌, arith, length, suc, sym, ap, subst}
use os_t.Prelude.Run.{ok}
use os_t.Str.{Mem}
use os_t.Kalloc.{Kmem, kfree, kalloc}
use os_t.Kalloc.Chain.{
  Out, SameOutside, IsPage, Free, Chain-frame, kfree-Free, kalloc-cons, kalloc-nil,
}

pub record System : Type 0 where
  pub kmem : Kmem
  pub held : List ℕ

-- Every page of the first list is out of the second.
abbrev pub AllOut : List ℕ → List ℕ → Type 0
AllOut [] ys = Unit {0}
AllOut (x ∷ xs) ys = Out x ys × AllOut xs ys

abbrev pub Distinct : List ℕ → Type 0
Distinct [] = Unit {0}
Distinct (x ∷ xs) = Out x xs × Distinct xs

module _ (kernel_end : ℕ) where
  abbrev pub AllPages : List ℕ → Type 0
  AllPages [] = Unit {0}
  AllPages (x ∷ xs) = IsPage kernel_end x × AllPages xs

  -- What may happen next: a call of kalloc, with or without success, a kfree of a page that is
  -- held, or a write to a page that is held.
  pub data Step : System → System → Type 0 where
    alloc :
        (s : System)
        → (kalloc s.kmem).0 ≢ 0
        → Step s (record { kmem = (kalloc s.kmem).1; held = (kalloc s.kmem).0 ∷ s.held })
    exhausted :
        (s : System) → (kalloc s.kmem).0 ≡ 0 → Step s (record s { kmem = (kalloc s.kmem).1 })
    free :
        (k k' : Kmem) (before after : List ℕ) (p : ℕ)
        → kfree kernel_end p k ≡ ok k'
        → Step
            (record { kmem = k; held = before ++ p ∷ after })
            (record { kmem = k'; held = before ++ after })
    scribble :
        (k : Kmem) (before after : List ℕ) (p : ℕ) (m' : Mem)
        → SameOutside p k.mem m'
        → Step
            (record { kmem = k; held = before ++ p ∷ after })
            (record { kmem = record k { mem = m' }; held = before ++ p ∷ after })

  pub data Reach (s : System) : System → Type 0 where
    start : Reach s s
    next : {t u : System} → Reach s t → Step t u → Reach s u

  -- `n` pages in all, each free or held, and none twice.
  pub record Inv (n : ℕ) (s : System) : Type 0 where
    pub pool : List ℕ
    pub is_free : Free kernel_end s.kmem pool
    pub pages : AllPages s.held
    pub distinct : Distinct s.held
    pub apart : AllOut s.held pool
    pub total : length pool + length s.held ≡ n

Out-middle : (x p : ℕ) (xs ys : List ℕ) → Out x (xs ++ p ∷ ys) → (x ≢ p) × Out x (xs ++ ys)
Out-middle x p [] ys h = h
Out-middle x p (y ∷ xs) ys h = let (ne, out) = Out-middle x p xs ys h.1 in (ne, (h.0, out))

Distinct-middle :
    (p : ℕ) (xs ys : List ℕ) → Distinct (xs ++ p ∷ ys) → Out p (xs ++ ys) × Distinct (xs ++ ys)
Distinct-middle p [] ys h = h
Distinct-middle p (x ∷ xs) ys h =
    let (ne, out) = Out-middle x p xs ys h.0 in
    let (out', d) = Distinct-middle p xs ys h.1 in ((λ e. ne (sym e), out'), (out, d))

AllOut-middle :
    (p : ℕ) (xs ys zs : List ℕ) → AllOut (xs ++ p ∷ ys) zs → Out p zs × AllOut (xs ++ ys) zs
AllOut-middle p [] ys zs h = h
AllOut-middle p (x ∷ xs) ys zs h =
    let (out, rest) = AllOut-middle p xs ys zs h.1 in (out, (h.0, rest))

-- A page that is out of both lists may be added to the right one.
AllOut-add : (p : ℕ) (xs zs : List ℕ) → Out p xs → AllOut xs zs → AllOut xs (p ∷ zs)
AllOut-add p [] zs out h = tt
AllOut-add p (x ∷ xs) zs out h = ((λ e. out.0 (sym e), h.0), AllOut-add p xs zs out.1 h.1)

-- Taking the first page of the right list away.
AllOut-tail : (p : ℕ) (xs zs : List ℕ) → AllOut xs (p ∷ zs) → Out p xs × AllOut xs zs
AllOut-tail p [] zs h = (tt, tt)
AllOut-tail p (x ∷ xs) zs h =
    let (out, rest) = AllOut-tail p xs zs h.1 in ((λ e. h.0.0 (sym e), out), (h.0.1, rest))

length-middle : (p : ℕ) (xs ys : List ℕ) → length (xs ++ p ∷ ys) ≡ suc (length (xs ++ ys))
length-middle p [] ys = refl
length-middle p (x ∷ xs) ys = ap suc (length-middle p xs ys)

module _ (kernel_end : ℕ) where
  AllPages-middle :
      (p : ℕ) (xs ys : List ℕ)
      → AllPages kernel_end (xs ++ p ∷ ys)
      → IsPage kernel_end p × AllPages kernel_end (xs ++ ys)
  AllPages-middle p [] ys h = h
  AllPages-middle p (x ∷ xs) ys h =
      let (page, rest) = AllPages-middle p xs ys h.1 in (page, (h.0, rest))

  -- With a free page, kalloc succeeds and the page moves to the holder.
  alloc-Inv :
      (n : ℕ) (s : System) (pool : List ℕ)
      → Free kernel_end s.kmem pool
      → AllPages kernel_end s.held
      → Distinct s.held
      → AllOut s.held pool
      → length pool + length s.held ≡ n
      → (kalloc s.kmem).0 ≢ 0
      → Inv kernel_end n (record { kmem = (kalloc s.kmem).1; held = (kalloc s.kmem).0 ∷ s.held })
  alloc-Inv n s [] fr pg ds ap' tot nz =
      absurd (nz (ap (λ r. r.0) (kalloc-nil kernel_end s.kmem fr)))
  alloc-Inv n s (x ∷ xs) fr pg ds ap' tot nz =
      let (got, rest, _, _) = kalloc-cons kernel_end s.kmem x xs fr in
      let (out, apart) = AllOut-tail x s.held xs ap' in
      record {
        pool = xs;
        is_free = rest;
        pages = rw got (fr.0.1, pg);
        distinct = rw got (out, ds);
        apart = rw got (fr.0.2, apart);
        total = omega arith;
      }

  exhausted-Inv :
      (n : ℕ) (s : System) (pool : List ℕ)
      → Free kernel_end s.kmem pool
      → AllPages kernel_end s.held
      → Distinct s.held
      → AllOut s.held pool
      → length pool + length s.held ≡ n
      → (kalloc s.kmem).0 ≡ 0
      → Inv kernel_end n (record s { kmem = (kalloc s.kmem).1 })
  exhausted-Inv n s [] fr pg ds ap' tot z = record {
    pool = [];
    is_free = rw (kalloc-nil kernel_end s.kmem fr) fr;
    pages = pg;
    distinct = ds;
    apart = ap';
    total = tot;
  }
  exhausted-Inv n s (x ∷ xs) fr pg ds ap' tot z =
      let page = fr.0.1 in
      absurd (omega (arith, page.nonzero, (kalloc-cons kernel_end s.kmem x xs fr).0, z))

  Step-Inv : {n : ℕ} {s t : System} → Step kernel_end s t → Inv kernel_end n s → Inv kernel_end n t
  Step-Inv {n} (alloc s nz) inv =
      alloc-Inv n s inv.pool inv.is_free inv.pages inv.distinct inv.apart inv.total nz
  Step-Inv {n} (exhausted s z) inv =
      exhausted-Inv n s inv.pool inv.is_free inv.pages inv.distinct inv.apart inv.total z
  Step-Inv (free k k' before after p run) inv =
      let (page, pages) = AllPages-middle p before after inv.pages in
      let (out, ds) = Distinct-middle p before after inv.distinct in
      let (out', apart) = AllOut-middle p before after inv.pool inv.apart in
      let (k1, run1, fr, _) = kfree-Free kernel_end p k inv.pool page out' inv.is_free in
      let e : k1 ≡ k' = cc in
      record {
        pool = p ∷ inv.pool;
        is_free = subst (λ c. Free kernel_end c (p ∷ inv.pool)) e fr;
        pages = pages;
        distinct = ds;
        apart = AllOut-add p (before ++ after) inv.pool out apart;
        total = omega (arith, inv.total, length-middle p before after);
      }
  Step-Inv (scribble k before after p m' same) inv =
      let (page, _) = AllPages-middle p before after inv.pages in
      let (out, _) = AllOut-middle p before after inv.pool inv.apart in
      record {
        pool = inv.pool;
        is_free = (
          Chain-frame kernel_end p k.mem m' inv.pool k.freelist same page.aligned out inv.is_free.0,
          inv.is_free.1,
        );
        pages = inv.pages;
        distinct = inv.distinct;
        apart = inv.apart;
        total = inv.total;
      }

  -- From a state with `n` free pages and none held, whatever the clients call and write: the free
  -- and the held pages are distinct page addresses, `n` in all, so that no page is handed out twice
  -- and none is lost.
  pub Reach-Inv :
      (n : ℕ) {s t : System} → Inv kernel_end n s → Reach kernel_end s t → Inv kernel_end n t
  Reach-Inv n inv start = inv
  Reach-Inv n inv (next r st) = Step-Inv st (Reach-Inv n inv r)

  apart_from_held :
      (k : Kmem) (pool held : List ℕ)
      → Free kernel_end k pool
      → AllOut held pool
      → (kalloc k).0 ≢ 0
      → Out (kalloc k).0 held × IsPage kernel_end (kalloc k).0
  apart_from_held k [] held fr apart nz = absurd (nz (ap (λ r. r.0) (kalloc-nil kernel_end k fr)))
  apart_from_held k (x ∷ xs) held fr apart nz =
      rw (kalloc-cons kernel_end k x xs fr).0 ((AllOut-tail x held xs apart).0, fr.0.1)

  -- In every reachable state, a page that kalloc returns is held by nobody, and is an aligned page
  -- of the kernel's memory.
  pub kalloc-Out :
      (n : ℕ) {s t : System}
      → Inv kernel_end n s
      → Reach kernel_end s t
      → (kalloc t.kmem).0 ≢ 0
      → Out (kalloc t.kmem).0 t.held × IsPage kernel_end (kalloc t.kmem).0
  kalloc-Out n {t = t} inv r nz =
      let i = Reach-Inv n inv r in apart_from_held t.kmem i.pool t.held i.is_free i.apart nz
