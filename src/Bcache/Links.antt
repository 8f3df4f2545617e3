-- ===== src/Bcache/Links.antt =====
-- The links of the buffer cache of w3/kernel/bio.c form a ring through the head.
use os_t.Prelude.{
  ℕ, zero, suc, ◌+◌, ◌≤◌, ◌<◌, ◌≡◌, refl, sym, subst, ap, ◌≢◌, ◌⊎◌, inl, inr, List, [], ◌∷◌, ◌++◌,
  length, length-append, ◌==◌, Bool-cases, update, update_ne, arith,
}
use mathlib.Core.List.{Memᴰ}
use mathlib.Core.List.Memᴰ.{tail, cases_cons, not-nil}
use mathlib.Core.List.Memᴰ.{head as head_mem}
use os_t.Bcache.{nbuf, head, Bcache, set_next, set_prev, link_front, unlink, binit_loop, binit}
use os_t.Bcache.Ring.{
  Chain, end, Fresh, Distinct, Apart, Chain-front, Chain-next, Chain-split, Chain-join,
}

-- The ring of the buffers `xs`, from the most to the least recently used.
pub record IsRing (c : Bcache) (xs : List ℕ) : Type 0 where
  pub chain : Chain c.next c.prev head xs head
  pub distinct : Distinct xs
  pub headless : Fresh head xs

-- All buffers are in the list.
pub record Full (xs : List ℕ) : Type 0 where
  pub size : length xs ≡ nbuf
  pub bounded : (b : ℕ) → Memᴰ b xs → b < nbuf
  pub complete : (b : ℕ) → b < nbuf → Memᴰ b xs

pub link_front-IsRing :
    (b : ℕ) (c : Bcache) (xs : List ℕ)
    → b ≢ head
    → Fresh b xs
    → IsRing c xs
    → IsRing (link_front b c) (b ∷ xs)
unfolding link_front
link_front-IsRing b c xs ne fr r = record {
  chain =
      subst
        (λ j.
          Chain (update (update c.next b (c.next head)) head b) (update (update c.prev b head) j b)
            head (b ∷ xs) head)
        (sym (update_ne c.next b (c.next head) head ne))
        (Chain-front b r.chain ne fr r.headless r.distinct);
  distinct = (fr, r.distinct);
  headless = ((λ e. ne (sym e)), r.headless);
}

Fresh-split :
    (c : ℕ) (xs : List ℕ) (b : ℕ) (ys : List ℕ)
    → Fresh c (xs ++ (b ∷ ys))
    → Fresh c xs × (c ≢ b) × Fresh c ys
Fresh-split c [] b ys f = (tt, f.0, f.1)
Fresh-split c (x ∷ xs) b ys f = let (l, m, r) = Fresh-split c xs b ys f.1 in ((f.0, l), m, r)

Fresh-append : (c : ℕ) (xs ys : List ℕ) → Fresh c xs → Fresh c ys → Fresh c (xs ++ ys)
Fresh-append c [] ys f g = g
Fresh-append c (x ∷ xs) ys f g = (f.0, Fresh-append c xs ys f.1 g)

-- The parts of a list without repetition, round `b`.
record Parts (xs : List ℕ) (b : ℕ) (ys : List ℕ) : Type 0 where
  left : Distinct xs
  right : Distinct ys
  not_left : Fresh b xs
  not_right : Fresh b ys
  apart : Apart xs ys

Distinct-split : (xs : List ℕ) (b : ℕ) (ys : List ℕ) → Distinct (xs ++ (b ∷ ys)) → Parts xs b ys
Distinct-split [] b ys d = record {
  left = tt;
  right = d.1;
  not_left = tt;
  not_right = d.0;
  apart = tt;
}
Distinct-split (x ∷ xs) b ys d =
    let p = Distinct-split xs b ys d.1 in
    let (l, m, r) = Fresh-split x xs b ys d.0 in
    record {
      left = (l, p.left);
      right = p.right;
      not_left = ((λ e. m (sym e)), p.not_left);
      not_right = p.not_right;
      apart = (r, p.apart);
    }

Distinct-append : (xs ys : List ℕ) → Distinct xs → Distinct ys → Apart xs ys → Distinct (xs ++ ys)
Distinct-append [] ys d e a = e
Distinct-append (x ∷ xs) ys d e a = (Fresh-append x xs ys d.0 a.0, Distinct-append xs ys d.1 e a.1)

pub unlink-IsRing :
    (b : ℕ) (c : Bcache) (xs ys : List ℕ)
    → IsRing c (xs ++ (b ∷ ys))
    → IsRing (unlink b c) (xs ++ ys) × Fresh b (xs ++ ys) × (b ≢ head)
unfolding unlink
unlink-IsRing b c xs ys r =
    let p = Distinct-split xs b ys r.distinct in
    let (hl, hb, hr) = Fresh-split head xs b ys r.headless in
    let (before, behind) = Chain-split xs b ys r.chain in
    (
      record {
        chain =
            subst
              (λ j.
                Chain (update c.next j (c.next b)) (update c.prev (c.next b) (c.prev b)) head
                  (xs ++ ys) head)
              (sym (
                update_ne c.prev (c.next b) (c.prev b) b
                  (λ e. Chain-next behind p.not_right (λ q. hb (sym q)) (sym e))))
              (Chain-join before behind hl p.left hl hr p.right hr p.apart);
        distinct = Distinct-append xs ys p.left p.right p.apart;
        headless = Fresh-append head xs ys hl hr;
      },
      Fresh-append b xs ys p.not_left p.not_right,
      λ e. hb (sym e),
    )

-- What brelse makes of the ring: the buffer goes from its place to the front.
pub to_front-IsRing :
    (b : ℕ) (c : Bcache) (xs ys : List ℕ)
    → IsRing c (xs ++ (b ∷ ys))
    → IsRing (link_front b (unlink b c)) (b ∷ (xs ++ ys))
to_front-IsRing b c xs ys r =
    let (r', f, ne) = unlink-IsRing b c xs ys r in
    link_front-IsRing b (unlink b c) (xs ++ ys) ne f r'

-- The buffers below `n`, the last one first.
abbrev pub down : ℕ → List ℕ
down zero = []
down (suc n) = n ∷ down n

Fresh-down : (c n : ℕ) → n ≤ c → Fresh c (down n)
Fresh-down c zero h = tt
Fresh-down c (suc n) h = ((λ e. omega arith), Fresh-down c n (omega arith))

binit_loop-IsRing :
    (n b : ℕ) (c : Bcache)
    → b + n ≤ nbuf
    → IsRing c (down b)
    → IsRing (binit_loop n b c) (down (b + n))
unfolding binit_loop
binit_loop-IsRing zero b c h r = subst (λ k. IsRing c (down k)) (omega arith) r
binit_loop-IsRing (suc n) b c h r =
    let r' : IsRing (link_front b c) (down (suc b)) =
      link_front-IsRing b c (down b) (λ e. omega arith) (Fresh-down b b (omega arith)) r in
    let step : suc b ≡ b + 1 = omega arith in
    subst (λ k. IsRing (binit_loop n (b + 1) (link_front b c)) (down k)) (omega arith)
      (binit_loop-IsRing n (b + 1) (link_front b c) (omega arith)
        (subst (λ k. IsRing (link_front b c) (down k)) step r'))

-- binit links all buffers, the last one first.
pub binit-IsRing : (c : Bcache) → IsRing (binit c) (down nbuf)
unfolding binit
binit-IsRing c =
    binit_loop-IsRing nbuf 0 (set_next head head (set_prev head head c)) (omega arith)
      (record { chain = end {a = head} {b = head} refl refl; distinct = tt; headless = tt })

length-down : (n : ℕ) → length (down n) ≡ n
length-down zero = refl
length-down (suc n) = ap suc (length-down n)

mem-down : (n b : ℕ) → b < n → Memᴰ b (down n)
mem-down zero b h = absurd (omega arith)
mem-down (suc n) b h = elim (lt_cases b n h) [ inl e ↦ head_mem e | inr l ↦ tail (mem-down n b l) ]
  where
    lt_cases : (i k : ℕ) → i < suc k → (i ≡ k) ⊎ (i < k)
    lt_cases i k l = elim (Bool-cases (i == k)) [
      | inl e ↦ inl (ground arith)
      | inr e ↦ inr (ground arith)
    ]

lt_of_mem-down : (n b : ℕ) → Memᴰ b (down n) → b < n
lt_of_mem-down zero b m = absurd (not-nil m)
lt_of_mem-down (suc n) b m = elim (cases_cons m) [
  | inl e ↦ omega arith
  | inr q ↦ let l = lt_of_mem-down n b q in omega arith
]

pub down-Full : Full (down nbuf)
down-Full = record {
  size = length-down nbuf;
  bounded = lt_of_mem-down nbuf;
  complete = mem-down nbuf;
}

-- A list in which `b` has a place, and its elements in another order.
pub mem-split :
    (b : ℕ) (zs : List ℕ) → Memᴰ b zs → (xs : List ℕ) × (ys : List ℕ) × (zs ≡ xs ++ (b ∷ ys))
mem-split b [] m = absurd (not-nil m)
mem-split b (z ∷ zs) m = elim (cases_cons m) [
  | inl e ↦ ([], zs, ap (λ y. y ∷ zs) (sym e))
  | inr q ↦ let (xs, ys, e) = mem-split b zs q in (z ∷ xs, ys, ap (λ l. z ∷ l) e)
]

mem-front : (i b : ℕ) (xs ys : List ℕ) → Memᴰ i (xs ++ (b ∷ ys)) → Memᴰ i (b ∷ (xs ++ ys))
mem-front i b [] ys m = m
mem-front i b (x ∷ xs) ys m = elim (cases_cons m) [
  | inl e ↦ tail (head_mem e)
  | inr q ↦ elim (cases_cons (mem-front i b xs ys q)) [ inl e ↦ head_mem e | inr r ↦ tail (tail r) ]
]

mem-back : (i b : ℕ) (xs ys : List ℕ) → Memᴰ i (b ∷ (xs ++ ys)) → Memᴰ i (xs ++ (b ∷ ys))
mem-back i b [] ys m = m
mem-back i b (x ∷ xs) ys m = elim (cases_cons m) [
  | inl e ↦ tail (mem-back i b xs ys (head_mem e))
  | inr q ↦ elim (cases_cons q) [ inl e ↦ head_mem e | inr r ↦ tail (mem-back i b xs ys (tail r)) ]
]

pub front-Full : (b : ℕ) (xs ys : List ℕ) → Full (xs ++ (b ∷ ys)) → Full (b ∷ (xs ++ ys))
front-Full b xs ys f = record {
  size = omega (arith, length-append xs (b ∷ ys), length-append xs ys, f.size);
  bounded = λ i m. f.bounded i (mem-back i b xs ys m);
  complete = λ i lt. mem-front i b xs ys (f.complete i lt);
}
