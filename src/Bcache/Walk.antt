-- ===== src/Bcache/Walk.antt =====
-- A walk along the links of a segment, against a search of the list that it holds.
use os_t.Prelude.{
  ℕ, zero, suc, ◌+◌, ◌<◌, ◌≡◌, ◌⊎◌, inl, inr, Bool, true, false, Option, none, some, List, [], ◌∷◌,
  length, if◌then◌else◌, Bool-cases, arith,
}
use mathlib.Core.List.{Memᴰ}
use mathlib.Core.List.Memᴰ.{tail, cases_cons, not-nil}
use mathlib.Core.List.Memᴰ.{head as head_mem}
use os_t.Bcache.{head, walk}
use os_t.Bcache.Ring.{Chain, end, link, Fresh}

-- The first element that passes.
pub find : (ℕ → Bool) → List ℕ → Option ℕ
find test [] = none
find test (x ∷ xs) = if test x then some x else find test xs

pub walk_lem :
    {next prev : ℕ → ℕ} {a : ℕ} {xs : List ℕ} (test : ℕ → Bool) (fuel : ℕ)
    → Chain next prev a xs head
    → Fresh head xs
    → length xs < fuel
    → walk next test fuel (next a) ≡ find test xs
unfolding walk find
walk_lem test zero ch fr lt = absurd (omega arith)
walk_lem test (suc fuel) (end e f) fr lt = ground arith
walk_lem {next} test (suc fuel) (link {x} {xs} e f ch) fr lt =
    let rest = walk_lem test fuel ch fr.1 (omega arith) in rw e (ground (arith, rest))

-- The list from its end, in front of `acc`.
abbrev pub rev_onto : List ℕ → List ℕ → List ℕ
rev_onto [] acc = acc
rev_onto (x ∷ xs) acc = rev_onto xs (x ∷ acc)

abbrev pub rev : List ℕ → List ℕ
rev xs = rev_onto xs []

Chain-rev_onto :
    {n p : ℕ → ℕ} {a b x : ℕ} {xs acc : List ℕ}
    → Chain n p x xs b
    → Chain p n x acc a
    → Chain p n b (rev_onto xs (x ∷ acc)) a
Chain-rev_onto (end e f) back = link f e back
Chain-rev_onto (link e f ch) back = Chain-rev_onto ch (link f e back)

-- A segment read along the other links.
pub Chain-rev : {n p : ℕ → ℕ} {a b : ℕ} {xs : List ℕ} → Chain n p a xs b → Chain p n b (rev xs) a
Chain-rev (end e f) = end f e
Chain-rev (link e f ch) = Chain-rev_onto ch (end f e)

Fresh-rev_onto : (c : ℕ) (xs acc : List ℕ) → Fresh c xs → Fresh c acc → Fresh c (rev_onto xs acc)
Fresh-rev_onto c [] acc f g = g
Fresh-rev_onto c (x ∷ xs) acc f g = Fresh-rev_onto c xs (x ∷ acc) f.1 (f.0, g)

pub Fresh-rev : (c : ℕ) (xs : List ℕ) → Fresh c xs → Fresh c (rev xs)
Fresh-rev c xs f = Fresh-rev_onto c xs [] f tt

length-rev_onto : (xs acc : List ℕ) → length (rev_onto xs acc) ≡ length xs + length acc
length-rev_onto [] acc = omega arith
length-rev_onto (x ∷ xs) acc = omega (arith, length-rev_onto xs (x ∷ acc))

pub length-rev : (xs : List ℕ) → length (rev xs) ≡ length xs
length-rev xs = omega (arith, length-rev_onto xs [])

mem-rev_onto : {c : ℕ} (xs acc : List ℕ) → Memᴰ c (rev_onto xs acc) → (Memᴰ c xs ⊎ Memᴰ c acc)
mem-rev_onto [] acc m = inr m
mem-rev_onto (x ∷ xs) acc m = elim (mem-rev_onto xs (x ∷ acc) m) [
  | inl l ↦ inl (tail l)
  | inr r ↦ elim (cases_cons r) [ inl e ↦ inl (head_mem e) | inr q ↦ inr q ]
]

pub mem-rev : {c : ℕ} (xs : List ℕ) → Memᴰ c (rev xs) → Memᴰ c xs
mem-rev xs m = elim (mem-rev_onto xs [] m) [ inl l ↦ l | inr r ↦ absurd (not-nil r) ]

rev_onto-mem : {c : ℕ} (xs acc : List ℕ) → Memᴰ c xs ⊎ Memᴰ c acc → Memᴰ c (rev_onto xs acc)
rev_onto-mem [] acc (inl m) = absurd (not-nil m)
rev_onto-mem [] acc (inr m) = m
rev_onto-mem (x ∷ xs) acc (inl m) = elim (cases_cons m) [
  | inl e ↦ rev_onto-mem xs (x ∷ acc) (inr (head_mem e))
  | inr q ↦ rev_onto-mem xs (x ∷ acc) (inl q)
]
rev_onto-mem (x ∷ xs) acc (inr m) = rev_onto-mem xs (x ∷ acc) (inr (tail m))

pub rev-mem : {c : ℕ} (xs : List ℕ) → Memᴰ c xs → Memᴰ c (rev xs)
rev-mem xs m = rev_onto-mem xs [] (inl m)

-- What find returns passes and is in the list; if it returns nothing, nothing there passes.
pub find-some :
    (test : ℕ → Bool) {i : ℕ} (xs : List ℕ) → find test xs ≡ some i → Memᴰ i xs × (test i ≡ true)
unfolding find
find-some test [] e = absurd (ground arith)
find-some test {i} (x ∷ xs) e = elim (Bool-cases (test x)) [
  | inl y ↦ let same : i ≡ x = ground arith in (head_mem same, rw same y)
  | inr n' ↦ let (m, t) = find-some test xs (rw n' at e) in (tail m, t)
]

pub find-none :
    (test : ℕ → Bool) {i : ℕ} (xs : List ℕ) → find test xs ≡ none → Memᴰ i xs → test i ≡ false
unfolding find
find-none test [] e m = absurd (not-nil m)
find-none test {i} (x ∷ xs) e m = elim (cases_cons m) [
  | inl same ↦ rw same (ground arith)
  | inr q ↦ find-none test xs (ground arith) q
]
