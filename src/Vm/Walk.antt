-- ===== src/Vm/Walk.antt =====
-- walk of w3/kernel/vm.c on the tree of page tables.
use os_t.Prelude.{
  ℕ, zero, suc, ◌+◌, ◌*◌, ◌≤◌, ◌<◌, ◌≡◌, refl, ap, ◌∙◌, Bool, true, false, Option, none, some, List,
  [], ◌∷◌, inl, inr, update, Bool-cases, arith,
}
use os_t.Vm.{maxva, pa2pte, pte2pa, is_valid, px, write, clear, Vm, walk_level}
use os_t.Vm.Tree.{
  Tag, node, prefix, prefix-px, px-lt, NotIn, Unused, IsTree, child_tag, lookup, find,
}
use os_t.Vm.Grow

-- Where a walk to the table of level 0 for an address has come to.
pub data Target (m : Vm) (tag : ℕ → Tag) (alloc : Bool) (level r va : ℕ)
    : Option (ℕ × ℕ) → Type 0 where
  missing : (alloc ≡ true → m.free ≡ []) → Target m tag alloc level r va none
  reached :
      (p : ℕ)
      → tag p ≡ node 0 (prefix 0 va)
      → find level m.word r va ≡ some p
      → Target m tag alloc level r va (some (p, px 0 va))

-- What a walk leaves: a tree with the tables that were there and more, whose unused pages are free, with
-- the valid entries that were there, and with each address mapped as it was.
pub record Walked (m : Vm) (tag : ℕ → Tag) (alloc : Bool) (level r va : ℕ)
    (out : Option (ℕ × ℕ) × Vm) : Type 0 where
  pub tags : ℕ → Tag
  pub tree : IsTree out.1.word tags
  pub unused : Unused tags out.1.free
  pub keeps : (x a b : ℕ) → tag x ≡ node a b → tags x ≡ node a b
  pub stays :
      (x a b j : ℕ) → tag x ≡ node a b → is_valid (m.word x j) ≡ true → out.1.word x j ≡ m.word x j
  pub looks :
      (l x va' : ℕ)
      → l ≤ 2
      → va' < maxva
      → tag x ≡ node l (prefix l va')
      → lookup l out.1.word x va' ≡ lookup l m.word x va'
  pub target : Target out.1 tags alloc level r va out.0

-- Pages that are not tagged stay so when another is.
Unused-update :
    (tag : ℕ → Tag) (p : ℕ) (t : Tag) (ps : List ℕ)
    → NotIn p ps
    → Unused tag ps
    → Unused (update tag p t) ps
Unused-update tag p t [] n u = tt
Unused-update tag p t (x ∷ ps) n u =
    (u.0, ground (arith, n.0, u.1), u.2, Unused-update tag p t ps n.1 u.3)

module _ (m : Vm) (tag : ℕ → Tag) (tree : IsTree m.word tag) (unused : Unused tag m.free) where
  stopped :
      (alloc : Bool) (level r va : ℕ)
      → (alloc ≡ true → m.free ≡ [])
      → Walked m tag alloc level r va (none, m)
  stopped alloc level r va none_left = record {
    tags = tag;
    tree = tree;
    unused = unused;
    keeps = λ x a b e. e;
    stays = λ x a b j e v. refl;
    looks = λ l x va' le lt e. refl;
    target = missing none_left;
  }

  -- A walk goes on below a valid entry.
  descend :
      (alloc : Bool) (level r va q : ℕ) (c : ℕ) (out : Option (ℕ × ℕ) × Vm)
      → tag r ≡ node (suc level) q
      → is_valid (m.word r (px (suc level) va)) ≡ true
      → pte2pa (m.word r (px (suc level) va)) ≡ c
      → Walked m tag alloc level c va out
      → Walked m tag alloc (suc level) r va out
  unfolding find
  descend alloc level r va q c out e v below w = record {
    tags = w.tags;
    tree = w.tree;
    unused = w.unused;
    keeps = w.keeps;
    stays = w.stays;
    looks = w.looks;
    target = lift out.0 w.target;
  }
    where
      find_below : find (suc level) out.1.word r va ≡ find level out.1.word c va
      find_below = rw (w.stays r (suc level) q _ e v, v, below) refl

      lift :
          (o : Option (ℕ × ℕ))
          → Target out.1 w.tags alloc level c va o
          → Target out.1 w.tags alloc (suc level) r va o
      lift none (missing n) = missing n
      lift o (reached p t f) = reached p t (find_below ∙ f)

-- A new table below an entry that is not valid, in the first free page.
module _ (word : ℕ → ℕ → ℕ) (p : ℕ) (rest : List ℕ) (tag : ℕ → Tag) (tree : IsTree word tag)
    (unused : Unused tag (p ∷ rest)) (level r va : ℕ) (lt : level < 2) (in_range : va < maxva)
    (e : tag r ≡ node (suc level) (prefix (suc level) va))
    (v : is_valid (word r (px (suc level) va)) ≡ false) where
  abbrev index : ℕ
  index = px (suc level) va

  abbrev part : ℕ
  part = prefix (suc level) va

  abbrev pub grown : Vm
  grown = record { word = write (clear word p) r index (pa2pte p + 1); free = rest }

  abbrev pub grown_tags : ℕ → Tag
  grown_tags = update tag p (node level (part * 512 + index))

  pub grown-IsTree : IsTree grown.word grown_tags
  grown-IsTree =
      Grow.extended-IsTree word tag tree r level part index p e (px-lt (suc level) va) v unused.0
        unused.1

  pub grown-Unused : Unused grown_tags rest
  grown-Unused = Unused-update tag p _ rest unused.2 unused.3

  pub grown_tag : grown_tags p ≡ node level (prefix level va)
  grown_tag =
      Grow.new_tag word tag tree r level part index p e (px-lt (suc level) va) v unused.0 unused.1
      ∙ ap (λ x. node level x) (prefix-px level va lt in_range)

  kept : (x a b : ℕ) → tag x ≡ node a b → grown_tags x ≡ node a b
  kept =
      Grow.tagged-node word tag tree r level part index p e (px-lt (suc level) va) v unused.0
        unused.1

  unwritten :
      (x a b j : ℕ) → tag x ≡ node a b → is_valid (word x j) ≡ true → grown.word x j ≡ word x j
  unwritten =
      Grow.stays_valid word tag tree r level part index p e (px-lt (suc level) va) v unused.0
        unused.1

  unmapped :
      (l x va' : ℕ)
      → l ≤ 2
      → va' < maxva
      → tag x ≡ node l (prefix l va')
      → lookup l grown.word x va' ≡ lookup l word x va'
  unmapped =
      Grow.extended-lookup word tag tree r level part index p e (px-lt (suc level) va) v unused.0
        unused.1

  valid_entry : is_valid (grown.word r index) ≡ true
  valid_entry =
      Grow.new_valid word tag tree r level part index p e (px-lt (suc level) va) v unused.0 unused.1

  entry_child : pte2pa (grown.word r index) ≡ p
  entry_child =
      Grow.new_child word tag tree r level part index p e (px-lt (suc level) va) v unused.0 unused.1

  -- A walk goes on below it.
  pub grow :
      (out : Option (ℕ × ℕ) × Vm)
      → Walked grown grown_tags true level p va out
      → Walked (record { word = word; free = p ∷ rest }) tag true (suc level) r va out
  grow out w =
      let under =
        descend grown grown_tags grown-IsTree grown-Unused true level r va part p out (kept r _ _ e)
          valid_entry entry_child w in
      record {
        tags = under.tags;
        tree = under.tree;
        unused = under.unused;
        keeps = λ x a b t. under.keeps x a b (kept x a b t);
        stays = λ x a b j t valid.
            let same = unwritten x a b j t valid in
            under.stays x a b j (kept x a b t) (ap is_valid same ∙ valid) ∙ same;
        looks = λ l x va' le lt' t.
            under.looks l x va' le lt' (kept x l _ t) ∙ unmapped l x va' le lt' t;
        target = under.target;
      }

-- walk keeps the tree, adds tables from free pages only, changes what no address is mapped to, and comes
-- to the entry of the address, or nowhere.
pub walk_level-Walked :
    (level : ℕ) (alloc : Bool) (r va : ℕ) (word : ℕ → ℕ → ℕ) (free : List ℕ) (tag : ℕ → Tag)
    → IsTree word tag
    → Unused tag free
    → level ≤ 2
    → va < maxva
    → tag r ≡ node level (prefix level va)
    → Walked
        (record { word = word; free = free })
        tag
        alloc
        level
        r
        va
        (walk_level level alloc r va (record { word = word; free = free }))
unfolding walk_level find
walk_level-Walked zero alloc r va word free tag tree unused le lt e = record {
  tags = tag;
  tree = tree;
  unused = unused;
  keeps = λ x a b t. t;
  stays = λ x a b j t v. refl;
  looks = λ l x va' le' lt' t. refl;
  target = reached r e refl;
}
walk_level-Walked (suc level) false r va word free tag tree unused le lt e =
    elim (Bool-cases (is_valid (word r (px (suc level) va)))) [
      | inl v ↦ rw v (
          descend (record { word = word; free = free }) tag tree unused false level r va _ _ _ e v
            refl
            (walk_level-Walked level false _ va word free tag tree unused (omega arith) lt
              (child_tag word tag tree level r va (omega arith) lt e v)))
      | inr n ↦ rw n (
          stopped (record { word = word; free = free }) tag tree unused false (suc level) r va
            (λ h. absurd (cc)))
    ]
walk_level-Walked (suc level) true r va word [] tag tree unused le lt e =
    elim (Bool-cases (is_valid (word r (px (suc level) va)))) [
      | inl v ↦ rw v (
          descend (record { word = word; free = [] }) tag tree unused true level r va _ _ _ e v refl
            (walk_level-Walked level true _ va word [] tag tree unused (omega arith) lt
              (child_tag word tag tree level r va (omega arith) lt e v)))
      | inr n ↦ rw n (
          stopped (record { word = word; free = [] }) tag tree unused true (suc level) r va
            (λ h. refl))
    ]
walk_level-Walked (suc level) true r va word (p ∷ rest) tag tree unused le lt e =
    elim (Bool-cases (is_valid (word r (px (suc level) va)))) [
      | inl v ↦ rw v (
          descend (record { word = word; free = p ∷ rest }) tag tree unused true level r va _ _ _ e
            v refl
            (walk_level-Walked level true _ va word (p ∷ rest) tag tree unused (omega arith) lt
              (child_tag word tag tree level r va (omega arith) lt e v)))
      | inr n ↦ rw n (
          grow word p rest tag tree unused level r va (omega arith) lt e n _ (
            walk_level-Walked level true p va _ rest _
              (grown-IsTree word p rest tag tree unused level r va (omega arith) lt e n)
              (grown-Unused word p rest tag tree unused level r va (omega arith) lt e n)
              (omega arith) lt
              (grown_tag word p rest tag tree unused level r va (omega arith) lt e n)))
    ]
