-- ===== src/Vm/Grow.antt =====
-- A new table in the tree of w3/kernel/vm.c.
use os_t.Prelude.{
  ℕ, zero, suc, ◌+◌, ◌*◌, ◌%◌, ◌≤◌, ◌<◌, ◌≡◌, ◌≢◌, refl, sym, ap, ◌∙◌, true, false, ◌&&◌, ◌==◌, inl,
  inr, update, Bool-cases, arith,
}
use os_t.Vm.{maxva, pa2pte, pte2pa, is_valid, px, write, clear}
use os_t.Vm.Tree.{Tag, plain, node, prefix, IsTree, child_tag, lookup}

zero_invalid : (w : ℕ) → w ≡ 0 → is_valid w ≡ true → ⊥
zero_invalid w z v = ground arith

-- A new, clear table below an entry that is not valid.
module _ (word : ℕ → ℕ → ℕ) (tag : ℕ → Tag) (tree : IsTree word tag) (t k q i p : ℕ)
    (at : tag t ≡ node (suc k) q) (below : i < 512) (invalid : is_valid (word t i) ≡ false)
    (aligned : p % 4096 ≡ 0) (new : tag p ≡ plain) where
  abbrev pub extended : ℕ → ℕ → ℕ
  extended = write (clear word p) t i (pa2pte p + 1)

  abbrev pub tagged : ℕ → Tag
  tagged = update tag p (node k (q * 512 + i))

  apart : p ≢ t
  apart e = let same = ap tag e in cc

  pub new_entry : extended t i ≡ pa2pte p + 1
  new_entry = ground arith

  pub new_valid : is_valid (extended t i) ≡ true
  new_valid = let e = new_entry in ground arith

  pub new_child : pte2pa (extended t i) ≡ p
  new_child = rw new_entry (omega arith)

  new_table : (j : ℕ) → extended p j ≡ 0
  new_table j = let h = apart in ground arith

  other_page : (r j : ℕ) → r ≢ p → r ≢ t → extended r j ≡ word r j
  other_page r j h g = ground arith

  other_entry : (r j : ℕ) → r ≢ p → j ≢ i → extended r j ≡ word r j
  other_entry r j h g = ground arith

  -- A table is not the new page, and keeps its tag.
  known : (r a b : ℕ) → tag r ≡ node a b → r ≢ p
  known r a b e same = let plain_too = ap tag same in cc

  pub tagged-node : (r a b : ℕ) → tag r ≡ node a b → tagged r ≡ node a b
  tagged-node r a b e = let h = known r a b e in ground arith

  pub new_tag : tagged p ≡ node k (q * 512 + i)
  new_tag = ground arith

  -- A valid entry of a table is not written.
  pub stays_valid :
      (r a b j : ℕ) → tag r ≡ node a b → is_valid (word r j) ≡ true → extended r j ≡ word r j
  stays_valid r a b j e v = let h = known r a b e in ground arith

  cleared : (r j : ℕ) → (p == r) ≡ true → extended r j ≡ 0
  cleared r j same = let h = apart in ground arith

  written : (r j : ℕ) → (t == r && i == j) ≡ true → extended r j ≡ pa2pte p + 1
  written r j here = ground arith

  unwritten : (r j : ℕ) → (p == r) ≡ false → (t == r && i == j) ≡ false → extended r j ≡ word r j
  unwritten r j differs there = ground arith

  new_pa : pte2pa (pa2pte p + 1) ≡ p
  new_pa = omega arith

  same_node :
      (r level b j : ℕ)
      → tag r ≡ node (suc level) b
      → (t == r && i == j) ≡ true
      → node k (q * 512 + i) ≡ node level (b * 512 + j)
  same_node r level b j old here =
      let place : t ≡ r = ground arith in
      let index : i ≡ j = ground arith in
      let both : node (suc k) q ≡ node (suc level) b = sym at ∙ ap tag place ∙ old in
      rw (← index) (ground arith)

  extended_child :
      (r level b j : ℕ)
      → tagged r ≡ node (suc level) b
      → j < 512
      → is_valid (extended r j) ≡ true
      → tagged (pte2pa (extended r j)) ≡ node level (b * 512 + j)
  extended_child r level b j e lt v = elim (Bool-cases (p == r)) [
    | inl same ↦ absurd (zero_invalid (extended r j) (cleared r j same) v)
    | inr differs ↦
        let old : tag r ≡ node (suc level) b = ground arith in
        elim (Bool-cases (t == r && i == j)) [
          | inl here ↦
              ap (λ x. tagged (pte2pa x)) (written r j here)
              ∙ ap tagged new_pa
              ∙ new_tag
              ∙ same_node r level b j old here
          | inr there ↦
              let same = unwritten r j differs there in
              ap (λ x. tagged (pte2pa x)) same
              ∙ tagged-node _ level _ (tree.child r level b j old lt (ap is_valid (sym same) ∙ v))
        ]
  ]

  pub extended-IsTree : IsTree extended tagged
  extended-IsTree = record { child = extended_child }

  clear_lookup : (level va : ℕ) → lookup level extended p va ≡ 0
  unfolding lookup
  clear_lookup zero va = new_table _
  clear_lookup (suc level) va = rw (new_table (px (suc level) va)) refl

  not_leaf : (r b : ℕ) → tag r ≡ node 0 b → (t == r) ≡ false
  not_leaf r b e = elim (Bool-cases (t == r)) [
    | inl same ↦
        let place : t ≡ r = ground arith in
        let both : node (suc k) q ≡ node 0 b = sym at ∙ ap tag place ∙ e in absurd (cc)
    | inr differs ↦ differs
  ]

  invalid_at : (r j : ℕ) → (t == r && i == j) ≡ true → is_valid (word r j) ≡ false
  invalid_at r j here =
      let place : t ≡ r = ground arith in
      let index : i ≡ j = ground arith in rw (← place, ← index) invalid

  valid_pa : is_valid (pa2pte p + 1) ≡ true
  valid_pa = ground arith

  -- The new table maps nothing, and changes what no address is mapped to.
  pub extended-lookup :
      (level r va : ℕ)
      → level ≤ 2
      → va < maxva
      → tag r ≡ node level (prefix level va)
      → lookup level extended r va ≡ lookup level word r va
  unfolding lookup
  extended-lookup zero r va le in_range e =
      let h = known r 0 (prefix 0 va) e in unwritten r _ (ground arith) (rw (not_leaf r _ e) refl)
  extended-lookup (suc level) r va le in_range e =
      let j = px (suc level) va in
      let h = known r (suc level) _ e in
      elim (Bool-cases (t == r && i == j)) [
        | inl here ↦
            rw (written r j here, invalid_at r j here, valid_pa, new_pa, clear_lookup level va) refl
        | inr there ↦ elim (Bool-cases (is_valid (word r j))) [
          | inl v ↦
              rw (unwritten r j (ground arith) there, v)
                (extended-lookup level _ va (omega arith) in_range
                  (child_tag word tag tree level r va (omega arith) in_range e v))
          | inr n ↦ rw (unwritten r j (ground arith) there, n) refl
        ]
      ]
