-- ===== src/Vm/Leaf.antt =====
-- A write to an entry of level 0 in the page tables of w3/kernel/vm.c.
use os_t.Prelude.{
  ℕ, zero, suc, ◌/◌, ◌≤◌, ◌<◌, ◌≡◌, ◌≢◌, refl, sym, ap, ◌∙◌, false, none, some, ◌==◌, inl, inr,
  Bool-cases, arith,
}
use os_t.Vm.{maxva, pte2pa, is_valid, px, write}
use os_t.Vm.Tree.{Tag, node, prefix, IsTree, child_tag, lookup, find}

pub px_same : (level va va' : ℕ) → va' / 4096 ≡ va / 4096 → px level va' ≡ px level va
px_same zero va va' e = omega arith
px_same (suc zero) va va' e = omega arith
px_same (suc (suc level)) va va' e = omega arith

module _ (word : ℕ → ℕ → ℕ) (tag : ℕ → Tag) (tree : IsTree word tag) (p va w : ℕ)
    (at : tag p ≡ node 0 (prefix 0 va)) where
  abbrev pub changed : ℕ → ℕ → ℕ
  changed = write word p (px 0 va) w

  not_inner : (r level b : ℕ) → tag r ≡ node (suc level) b → (p == r) ≡ false
  not_inner r level b e = elim (Bool-cases (p == r)) [
    | inl same ↦
        let place : p ≡ r = ground arith in
        let both : node 0 (prefix 0 va) ≡ node (suc level) b = sym at ∙ ap tag place ∙ e in
        absurd (cc)
    | inr differs ↦ differs
  ]

  inner_entry : (r level b j : ℕ) → tag r ≡ node (suc level) b → changed r j ≡ word r j
  inner_entry r level b j e = rw (not_inner r level b e) refl

  pub changed-IsTree : IsTree changed tag
  changed-IsTree = record {
    child = λ r level q j e lt v.
        let same = inner_entry r level q j e in
        ap (λ x. tag (pte2pa x)) same ∙ tree.child r level q j e lt (ap is_valid (sym same) ∙ v);
  }

  -- Another page keeps its entry.
  pub changed-lookup_other :
      (level r va' : ℕ)
      → level ≤ 2
      → va' < maxva
      → va' / 4096 ≢ va / 4096
      → tag r ≡ node level (prefix level va')
      → lookup level changed r va' ≡ lookup level word r va'
  unfolding lookup
  changed-lookup_other zero r va' le in_range ne e = elim (Bool-cases (p == r)) [
    | inl same ↦
        let place : p ≡ r = ground arith in
        let both : node 0 (prefix 0 va) ≡ node 0 (prefix 0 va') = sym at ∙ ap tag place ∙ e in
        let high : prefix 0 va ≡ prefix 0 va' = ground arith in
        let low : px 0 va ≢ px 0 va' = λ d. ne (omega arith) in
        let other : (px 0 va == px 0 va') ≡ false = ground arith in
        rw (same, other) (ap (λ x. word x (px 0 va')) place)
    | inr differs ↦ rw differs refl
  ]
  changed-lookup_other (suc level) r va' le in_range ne e =
      let j = px (suc level) va' in
      let same = inner_entry r level _ j e in
      elim (Bool-cases (is_valid (word r j))) [
        | inl v ↦
            rw (same, v)
              (changed-lookup_other level _ va' (omega arith) in_range ne
                (child_tag word tag tree level r va' (omega arith) in_range e v))
        | inr n ↦ rw (same, n) refl
      ]

  -- The page of the address has the new entry.
  pub changed-lookup_same :
      (level r va' : ℕ)
      → level ≤ 2
      → va < maxva
      → va' / 4096 ≡ va / 4096
      → tag r ≡ node level (prefix level va)
      → find level word r va ≡ some p
      → lookup level changed r va' ≡ w
  unfolding lookup find
  changed-lookup_same zero r va' le in_range eq e f =
      let place : r ≡ p = ground arith in rw (px_same 0 va va' eq, place) (ground arith)
  changed-lookup_same (suc level) r va' le in_range eq e f =
      let j = px (suc level) va in
      let same = inner_entry r level _ j e in
      elim (Bool-cases (is_valid (word r j))) [
        | inl v ↦
            rw (px_same (suc level) va va' eq, same, v)
              (changed-lookup_same level _ va' (omega arith) in_range eq
                (child_tag word tag tree level r va (omega arith) in_range e v) (rw v at f))
        | inr n ↦ let f' : none ≡ some p = rw n at f in absurd (cc)
      ]
