-- ===== src/Vm/Tree.antt =====
-- The page tables of w3/kernel/vm.c as a tree: which page is the table of which level and of which part
-- of the addresses.
use os_t.Prelude.{
  ℕ, zero, suc, ◌+◌, ◌*◌, ◌/◌, ◌%◌, ◌<◌, ◌≡◌, ◌≢◌, ap, ◌∙◌, true, Option, none, some, List, [], ◌∷◌,
  if◌then◌else◌, inl, inr, Bool-cases, arith,
}
use os_t.Vm.{maxva, pte2pa, is_valid, px}

-- A page that is no table, or the table of a level for the addresses with the prefix.
pub data Tag : Type 0 where
  plain : Tag
  node : ℕ → ℕ → Tag

abbrev pub prefix : ℕ → ℕ → ℕ
prefix zero va = va / 2097152
prefix (suc zero) va = va / 1073741824
prefix (suc (suc level)) va = 0

pub prefix-px :
    (level va : ℕ)
    → level < 2
    → va < maxva
    → prefix (suc level) va * 512 + px (suc level) va ≡ prefix level va
prefix-px zero va h lt = omega arith
prefix-px (suc zero) va h lt = omega arith
prefix-px (suc (suc level)) va h lt = absurd (omega arith)

pub px-lt : (level va : ℕ) → px level va < 512
px-lt zero va = omega arith
px-lt (suc zero) va = omega arith
px-lt (suc (suc level)) va = omega arith

abbrev pub NotIn : ℕ → List ℕ → Type 0
NotIn p [] = Unit
NotIn p (r ∷ rs) = (p ≢ r) × NotIn p rs

-- The pages of a list are aligned, distinct and no tables.
abbrev pub Unused : (ℕ → Tag) → List ℕ → Type 0
Unused tag [] = Unit
Unused tag (p ∷ ps) = (p % 4096 ≡ 0) × (tag p ≡ plain) × NotIn p ps × Unused tag ps

-- A table's valid entries lead to the tables below it, with the part of the prefix that the index adds.
pub record IsTree (word : ℕ → ℕ → ℕ) (tag : ℕ → Tag) : Type 0 where
  pub child :
      (p level q i : ℕ)
      → tag p ≡ node (suc level) q
      → i < 512
      → is_valid (word p i) ≡ true
      → tag (pte2pa (word p i)) ≡ node level (q * 512 + i)

-- The table below an address's entry.
pub child_tag :
    (word : ℕ → ℕ → ℕ) (tag : ℕ → Tag)
    → IsTree word tag
    → (level r va : ℕ) → level < 2
    → va < maxva
    → tag r ≡ node (suc level) (prefix (suc level) va)
    → is_valid (word r (px (suc level) va)) ≡ true
    → tag (pte2pa (word r (px (suc level) va))) ≡ node level (prefix level va)
child_tag word tag tree level r va lt in_range e v =
    tree.child r level _ _ e (px-lt (suc level) va) v
    ∙ ap (λ x. node level x) (prefix-px level va lt in_range)

-- What a table maps an address to: the entry of level 0, or 0.
unfoldable pub lookup : ℕ → (ℕ → ℕ → ℕ) → ℕ → ℕ → ℕ
lookup zero word p va = word p (px 0 va)
lookup (suc level) word p va =
    if is_valid (word p (px (suc level) va))
    then lookup level word (pte2pa (word p (px (suc level) va))) va
    else 0

-- The level-0 table of an address.
unfoldable pub find : ℕ → (ℕ → ℕ → ℕ) → ℕ → ℕ → Option ℕ
find zero word p va = some p
find (suc level) word p va =
    if is_valid (word p (px (suc level) va))
    then find level word (pte2pa (word p (px (suc level) va))) va
    else none

-- The table that is found has the entry that is looked up.
pub find-lookup :
    (level : ℕ) (word : ℕ → ℕ → ℕ) (r va p : ℕ)
    → find level word r va ≡ some p
    → lookup level word r va ≡ word p (px 0 va)
unfolding find lookup
find-lookup zero word r va p f =
    let place : r ≡ p = ground arith in ap (λ x. word x (px 0 va)) place
find-lookup (suc level) word r va p f = elim (Bool-cases (is_valid (word r (px (suc level) va)))) [
  | inl v ↦ rw v (find-lookup level word _ va p (rw v at f))
  | inr n ↦ let f' : none ≡ some p = rw n at f in absurd (cc)
]
