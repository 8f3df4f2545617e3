-- ===== src/Ph/Threads.antt =====
-- The threads of w5/notxv6/ph-with-mutex-locks.c, in any order of their rounds.
use os_t.Prelude.{
  ℕ, ◌+◌, ◌≡◌, refl, sym, subst, ap, ◌∙◌, ◌⊎◌, inl, inr, true, Option, none, some, List, [], ◌∷◌,
  if◌then◌else◌, ◌==◌, Bool-cases, arith,
}
use mathlib.Core.List.{Memᴰ}
use mathlib.Core.List.Memᴰ.{head, tail, cases_cons, not-nil}
use os_t.Ph.{Entry, put, get, Puts, Step, put_round, Reach, start, next, missing}
use os_t.Ph.Lookup.{get-put}

-- All threads before their first round, on an empty table.
abbrev pub fresh : (ℕ → List ℕ) → Puts
fresh shares = record { table = λ i. []; left = shares }

-- get finds the key, with the number of a thread that has it in its share.
pub record Found (shares : ℕ → List ℕ) (k : ℕ) (table : ℕ → List Entry) : Type 0 where
  pub thread : ℕ
  pub has : Memᴰ k (shares thread)
  pub gets : get k table ≡ some (record { key = k; value = thread })

-- A key of a share is still to be put, or is found; what is left is part of the share.
pub record Progress (shares : ℕ → List ℕ) (s : Puts) : Type 0 where
  pub pending : (n k : ℕ) → Memᴰ k (s.left n) → Memᴰ k (shares n)
  pub stored : (n k : ℕ) → Memᴰ k (shares n) → Memᴰ k (s.left n) ⊎ Found shares k s.table

-- The key that is put is found with the thread's number.
Found-new :
    (shares : ℕ → List ℕ) (n k j : ℕ) (table : ℕ → List Entry)
    → Memᴰ k (shares n)
    → j ≡ k
    → Found shares j (put k n table)
Found-new shares n k j table m e = record {
  thread = n;
  has = subst (λ l. Memᴰ l (shares n)) (sym e) m;
  gets = get-put k n j table ∙ ground arith;
}

-- What was found stays found.
Found-old :
    (shares : ℕ → List ℕ) (n k j : ℕ) (table : ℕ → List Entry)
    → Memᴰ k (shares n)
    → Found shares j table
    → Found shares j (put k n table)
Found-old shares n k j table m f = elim (Bool-cases (j == k)) [
  | inl y ↦ Found-new shares n k j table m (ground arith)
  | inr n' ↦ record { thread = f.thread; has = f.has; gets = get-put k n j table ∙ rw n' f.gets }
]

-- A round of thread `n` leaves the other threads' keys, and of its own the rest.
module _ (f : ℕ → List ℕ) (n k : ℕ) (ks : List ℕ) (e : f n ≡ k ∷ ks) where
  own : (i : ℕ) → i == n ≡ true → f i ≡ k ∷ ks
  own i y = let same : i ≡ n = ground arith in ap f same ∙ e

  left_before : (i j : ℕ) → Memᴰ j (if i == n then ks else f i) → Memᴰ j (f i)
  left_before i j m = elim (Bool-cases (i == n)) [
    | inl y ↦
        let m' : Memᴰ j ks = subst (λ b. Memᴰ j (if b then ks else f i)) y m in
        subst (λ l. Memᴰ j l) (sym (own i y)) (tail m')
    | inr n' ↦ subst (λ b. Memᴰ j (if b then ks else f i)) n' m
  ]

  left_after : (i j : ℕ) → Memᴰ j (f i) → (j ≡ k) ⊎ Memᴰ j (if i == n then ks else f i)
  left_after i j m = elim (Bool-cases (i == n)) [
    | inl y ↦ rw y (cases_cons (subst (λ l. Memᴰ j l) (own i y) m))
    | inr n' ↦ rw n' (inr m)
  ]

Step-Progress :
    {shares : ℕ → List ℕ} {s t : Puts} → Step s t → Progress shares s → Progress shares t
Step-Progress {shares} {s} (put_round n k ks e) inv = record {
  pending = λ i j m. inv.pending i j (left_before s.left n k ks e i j m);
  stored = λ i j m. elim (inv.stored i j m) [
    | inl l ↦ elim (left_after s.left n k ks e i j l) [
      | inl same ↦ inr (Found-new shares n k j s.table mine same)
      | inr l' ↦ inl l'
    ]
    | inr f ↦ inr (Found-old shares n k j s.table mine f)
  ];
}
  where
    mine : Memᴰ k (shares n)
    mine = inv.pending n k (subst (λ l. Memᴰ k l) (sym e) (head refl))

Reach-Progress : {shares : ℕ → List ℕ} {s : Puts} → Reach (fresh shares) s → Progress shares s
Reach-Progress start = record { pending = λ n k m. m; stored = λ n k m. inl m }
Reach-Progress (next r st) = Step-Progress st (Reach-Progress r)

-- In whatever order the threads take their rounds, every key of the share of a thread that is through
-- is found, with the number of a thread that has it in its share.
pub Reach-Found :
    (shares : ℕ → List ℕ) (s : Puts) (n k : ℕ)
    → Reach (fresh shares) s
    → s.left n ≡ []
    → Memᴰ k (shares n)
    → Found shares k s.table
Reach-Found shares s n k r e m = elim ((Reach-Progress r).stored n k m) [
  | inl l ↦ absurd (not-nil (subst (λ ks. Memᴰ k ks) e l))
  | inr f ↦ f
]

missing-none :
    (keys : List ℕ) (shares : ℕ → List ℕ) (table : ℕ → List Entry)
    → ((k : ℕ) → Memᴰ k keys → Found shares k table)
    → missing keys table ≡ 0
unfolding missing
missing-none [] shares table all = refl
missing-none (k ∷ keys) shares table all =
    let f = all k (head refl) in
    let rest = missing keys table in
    ap (λ (o : Option Entry). elim o as (λ _. ℕ) [ none ↦ rest + 1 | some e ↦ rest ]) f.gets
    ∙ missing-none keys shares table (λ j m. all j (tail m))

-- Once the threads are through, whatever the order of their rounds, get_thread misses none of the
-- keys of their shares.
pub missing_lem :
    (shares : ℕ → List ℕ) (s : Puts) (keys : List ℕ)
    → Reach (fresh shares) s
    → ((n : ℕ) → s.left n ≡ [])
    → ((k : ℕ) → Memᴰ k keys → (n : ℕ) × Memᴰ k (shares n))
    → missing keys s.table ≡ 0
missing_lem shares s keys r done shared =
    missing-none keys shares s.table
      (λ k m. let (n, h) = shared k m in Reach-Found shares s n k r (done n) h)
