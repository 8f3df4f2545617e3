-- ===== src/Vm/Unmap.antt =====
-- uvmunmap of w3/kernel/vm.c on the map from pages to entries.
use os_t.Prelude.{
  ℕ, zero, suc, ◌+◌, ◌*◌, ◌/◌, ◌%◌, ◌≤◌, ◌<◌, ◌≡◌, refl, sym, ap, ◌∙◌, ◌⊎◌, inl, inr, Bool, true,
  false, ◌&&◌, Option, none, some, ◌==◌, leb, ltb, Bool-cases, Option-cases, arith,
}
use os_t.Prelude.Run.{Run, ok, panic, ◌>>=◌}
use os_t.Vm.{
  pgsize, maxva, is_valid, px, write, Vm, walk_level, walk, unmap_entry, unmap_loop, uvmunmap,
}
use os_t.Vm.Tree.{Tag, node, prefix, IsTree, child_tag, lookup, find, find-lookup}
use os_t.Vm.Leaf.{px_same, changed-IsTree, changed-lookup_other, changed-lookup_same}
use os_t.Vm.Map.{IsSpace, entry}
use os_t.Vm.Translate.{walk_only}

-- The pointer to the entry in a table.
abbrev at_leaf : ℕ → Option ℕ → Option (ℕ × ℕ)
at_leaf va none = none
at_leaf va (some p) = some (p, px 0 va)

walk_finds :
    (level r va : ℕ) (m : Vm)
    → (walk_level level false r va m).0 ≡ at_leaf va (find level m.word r va)
unfolding walk_level find
walk_finds zero r va m = refl
walk_finds (suc level) r va m = elim (Bool-cases (is_valid (m.word r (px (suc level) va)))) [
  | inl v ↦ rw v (walk_finds level _ va m)
  | inr n ↦ rw n refl
]

not_found :
    (level : ℕ) (word : ℕ → ℕ → ℕ) (r va : ℕ)
    → find level word r va ≡ none
    → lookup level word r va ≡ 0
unfolding find lookup
not_found zero word r va f = absurd (cc)
not_found (suc level) word r va f = elim (Bool-cases (is_valid (word r (px (suc level) va)))) [
  | inl v ↦ rw v (not_found level word _ va (rw v at f))
  | inr n ↦ rw n refl
]

find_tag :
    (level : ℕ) (word : ℕ → ℕ → ℕ) (tag : ℕ → Tag) (r va p : ℕ)
    → IsTree word tag
    → level ≤ 2
    → va < maxva
    → tag r ≡ node level (prefix level va)
    → find level word r va ≡ some p
    → tag p ≡ node 0 (prefix 0 va)
unfolding find
find_tag zero word tag r va p tree le lt e f = let place : r ≡ p = ground arith in rw (← place) e
find_tag (suc level) word tag r va p tree le lt e f =
    elim (Bool-cases (is_valid (word r (px (suc level) va)))) [
      | inl v ↦
          find_tag level word tag _ va p tree (omega arith) lt
            (child_tag word tag tree level r va (omega arith) lt e v) (rw v at f)
      | inr n ↦ let f' : none ≡ some p = rw n at f in absurd (cc)
    ]

-- Whether an address is in one of `n` pages from `a` on.
abbrev pub in_pages : ℕ → ℕ → ℕ → Bool
in_pages a n va = leb (a / 4096) (va / 4096) && ltb (va / 4096) (a / 4096 + n)

-- The pages are not mapped any more, the others are as they were, and the tables stay.
pub record Unmaps (m m' : Vm) (root a n : ℕ) (tag : ℕ → Tag) : Type 0 where
  pub tree : IsTree m'.word tag
  pub gone : (va : ℕ) → va < maxva → in_pages a n va ≡ true → is_valid (entry m' root va) ≡ false
  pub others : (va : ℕ) → va < maxva → in_pages a n va ≡ false → entry m' root va ≡ entry m root va

-- Why uvmunmap panics: an address that is out of range, or an entry with PTE_V and no other flag.
abbrev pub NoLeaf : Vm → ℕ → ℕ → Type 0
NoLeaf m root va = (maxva ≤ va) ⊎ ((va < maxva) × ((entry m root va % 1024 == 1) ≡ true))

pub data Removal (m : Vm) (root a n : ℕ) (tag : ℕ → Tag) : Run Vm → Type 0 where
  removed : (m' : Vm) → Unmaps m m' root a n tag → Removal m root a n tag (ok m')
  no_leaf : (k : ℕ) → k < n → NoLeaf m root (a + k * 4096) → Removal m root a n tag panic

-- The pages of one frame have one entry.
lookup_same :
    (level : ℕ) (word : ℕ → ℕ → ℕ) (r va va' : ℕ)
    → va' / 4096 ≡ va / 4096
    → lookup level word r va' ≡ lookup level word r va
unfolding lookup
lookup_same zero word r va va' e = ap (word r) (px_same 0 va va' e)
lookup_same (suc level) word r va va' e =
    rw (px_same (suc level) va va' e) (elim (Bool-cases (is_valid (word r (px (suc level) va)))) [
      | inl v ↦ rw v (lookup_same level word _ va va' e)
      | inr n ↦ rw n refl
    ])

-- A page that was not mapped.
passed :
    (m : Vm) (root a : ℕ) (tag : ℕ → Tag)
    → IsTree m.word tag
    → is_valid (entry m root a) ≡ false
    → Unmaps m m root a 1 tag
passed m root a tag tree invalid = record {
  tree = tree;
  gone = λ va lt inside. ap is_valid (lookup_same 2 m.word root a va (ground arith)) ∙ invalid;
  others = λ va lt outside. refl;
}

-- A page whose entry is set to 0.
cleared :
    (m : Vm) (root a p : ℕ) (tag : ℕ → Tag)
    → IsTree m.word tag
    → tag root ≡ node 2 0
    → tag p ≡ node 0 (prefix 0 a)
    → find 2 m.word root a ≡ some p
    → a < maxva
    → Unmaps m (record m { word = write m.word p (px 0 a) 0 }) root a 1 tag
cleared m root a p tag tree top leaf found lt = record {
  tree = changed-IsTree m.word tag tree p a 0 leaf;
  gone = λ va in_range inside. ap is_valid (
      changed-lookup_same m.word tag tree p a 0 leaf 2 root va (omega arith) lt (ground arith) top
        found);
  others = λ va in_range outside.
      changed-lookup_other m.word tag tree p a 0 leaf 2 root va (omega arith) in_range
        (ground arith) top;
}

first_page : (a : ℕ) → a + 0 * 4096 ≡ a
first_page a = omega arith

-- The first of the pages.
unmap_entry-Removal :
    (m : Vm) (root a end : ℕ) (tag : ℕ → Tag)
    → IsTree m.word tag
    → tag root ≡ node 2 0
    → a < maxva
    → Removal m root a 1 tag (unmap_entry end false (at_leaf a (find 2 m.word root a)) m)
unfolding unmap_entry
unmap_entry-Removal m root a end tag tree top lt = elim (Option-cases (find 2 m.word root a)) [
  | inl absent ↦
      rw absent
        (removed m (passed m root a tag tree (ap is_valid (not_found 2 m.word root a absent))))
  | inr (p, found) ↦
      let at : entry m root a ≡ m.word p (px 0 a) = find-lookup 2 m.word root a p found in
      elim (Bool-cases (is_valid (m.word p (px 0 a)))) [
        | inl v ↦ elim (Bool-cases (m.word p (px 0 a) % 1024 == 1)) [
          | inl bare ↦
              rw (found, v, bare)
                (no_leaf 0 (omega arith)
                  (rw (first_page a) (inr (lt, ap (λ x. x % 1024 == 1) at ∙ bare))))
          | inr flags ↦
              rw (found, v, flags)
                (removed _ (
                  cleared m root a p tag tree top
                    (find_tag 2 m.word tag root a p tree (omega arith) lt top found) found lt))
        ]
        | inr n ↦ rw (found, n) (removed m (passed m root a tag tree (ap is_valid at ∙ n)))
      ]
]

place_suc : (a k : ℕ) → a + pgsize + k * 4096 ≡ a + suc k * 4096
place_suc a k = omega arith

-- A page behind the first one is not in it.
behind_first : (a k : ℕ) → a % 4096 ≡ 0 → in_pages a 1 (a + pgsize + k * 4096) ≡ false
behind_first a k aligned = ground arith

Unmaps-suc :
    (m m1 m' : Vm) (root a n : ℕ) (tag : ℕ → Tag)
    → a % 4096 ≡ 0
    → Unmaps m m1 root a 1 tag
    → Unmaps m1 m' root (a + pgsize) n tag
    → Unmaps m m' root a (suc n) tag
Unmaps-suc m m1 m' root a n tag aligned first rest = record {
  tree = rest.tree;
  gone = λ va lt inside. elim (Bool-cases (in_pages (a + pgsize) n va)) [
    | inl later ↦ rest.gone va lt later
    | inr now ↦ ap is_valid (rest.others va lt now) ∙ first.gone va lt (ground arith)
  ];
  others = λ va lt outside. rest.others va lt (ground arith) ∙ first.others va lt (ground arith);
}

NoLeaf-suc :
    (m m1 : Vm) (root a k : ℕ) (tag : ℕ → Tag)
    → a % 4096 ≡ 0
    → Unmaps m m1 root a 1 tag
    → NoLeaf m1 root (a + pgsize + k * 4096)
    → NoLeaf m root (a + suc k * 4096)
NoLeaf-suc m m1 root a k tag aligned first (inl high) = inl (omega arith)
NoLeaf-suc m m1 root a k tag aligned first (inr (lt, bare)) = rw (← place_suc a k) (
    inr (
      lt,
      ap (λ x. x % 1024 == 1)
            (sym (first.others (a + pgsize + k * 4096) lt (behind_first a k aligned)))
          ∙ bare,
    ))

follow :
    (m : Vm) (root a n : ℕ) (tag : ℕ → Tag) (loop : Vm → Run Vm) (r : Run Vm)
    → a % 4096 ≡ 0
    → Removal m root a 1 tag r
    → ((m1 : Vm) → IsTree m1.word tag → Removal m1 root (a + pgsize) n tag (loop m1))
    → Removal m root a (suc n) tag (r >>= loop)
follow m root a n tag loop r aligned (no_leaf k lt bare) rest = no_leaf k (omega arith) bare
follow m root a n tag loop r aligned (removed m1 first) rest = go (loop m1) (rest m1 first.tree)
  where
    go : (x : Run Vm) → Removal m1 root (a + pgsize) n tag x → Removal m root a (suc n) tag x
    go x (removed m' unmaps) = removed m' (Unmaps-suc m m1 m' root a n tag aligned first unmaps)
    go x (no_leaf k lt bare) =
        no_leaf (suc k) (omega arith) (NoLeaf-suc m m1 root a k tag aligned first bare)

unmap_loop-Removal :
    (n : ℕ) (m : Vm) (root a end : ℕ) (tag : ℕ → Tag)
    → IsTree m.word tag
    → tag root ≡ node 2 0
    → a % 4096 ≡ 0
    → Removal m root a n tag (unmap_loop end false n root a m)
unfolding unmap_loop walk
unmap_loop-Removal zero m root a end tag tree top aligned = removed m (record {
  tree = tree;
  gone = λ va lt inside. absurd (ground arith);
  others = λ va lt outside. refl;
})
unmap_loop-Removal (suc n) m root a end tag tree top aligned = elim (Bool-cases (leb maxva a)) [
  | inl high ↦ rw high (no_leaf 0 (omega arith) (rw (first_page a) (inl (ground arith))))
  | inr low ↦
      let in_range : a < maxva = ground arith in
      rw (low, (walk_only 2 root a m).0, walk_finds 2 root a m)
        (follow m root a n tag _ _ aligned (unmap_entry-Removal m root a end tag tree top in_range)
          (λ m1 tree1. unmap_loop-Removal n m1 root (a + pgsize) end tag tree1 top (omega arith)))
]

-- uvmunmap of a tree of page tables at an aligned address, without the pages being freed, takes away
-- exactly the mappings of the range and leaves every other address mapped as it was, with the same
-- tables; pages that are not mapped are passed over; it panics only at an address of the range that is
-- not below MAXVA or that is mapped with no flag but PTE_V.
pub uvmunmap-Removal :
    (m : Vm) (root va npages end : ℕ) (space : IsSpace m root)
    → va % pgsize ≡ 0
    → Removal m root va npages space.tag (uvmunmap end root va npages false m)
unfolding uvmunmap
uvmunmap-Removal m root va npages end space at_page =
    let a : (va % pgsize == 0) ≡ true = ground arith in
    rw a (unmap_loop-Removal npages m root va end space.tag space.tree space.top at_page)
