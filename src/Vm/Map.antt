-- ===== src/Vm/Map.antt =====
-- mappages and walkaddr of w3/kernel/vm.c: page tables as a map from pages to entries.
use os_t.Prelude.{
  ℕ, zero, suc, ◌+◌, ◌-◌, ◌*◌, ◌/◌, ◌%◌, ◌≤◌, ◌<◌, ◌≡◌, ◌≢◌, refl, sym, ap, subst, ◌∙◌, ◌⊎◌, inl,
  inr, Bool, true, false, ◌&&◌, Option, none, some, [], if◌then◌else◌, ◌==◌, leb, ltb, Bool-cases,
  arith,
}
use os_t.Prelude.Run.{Run, ok, panic, ◌>>=◌}
use os_t.Vm.{pgsize, maxva, is_valid, leaf_pte, px, write, Vm, walk, map_entry, map_loop, mappages}
use os_t.Vm.Tree.{Tag, node, prefix, Unused, IsTree, lookup, find, find-lookup}
use os_t.Vm.Leaf.{changed-IsTree, changed-lookup_other, changed-lookup_same}
use os_t.Vm.Walk.{Target, missing, reached, Walked, walk_level-Walked}

-- A page table with its tables below, apart from the free pages.
pub record IsSpace (m : Vm) (root : ℕ) : Type 0 where
  pub tag : ℕ → Tag
  pub tree : IsTree m.word tag
  pub unused : Unused tag m.free
  pub top : tag root ≡ node 2 0

-- The entry of an address.
abbrev pub entry : Vm → ℕ → ℕ → ℕ
entry m root va = lookup 2 m.word root va

-- The entries with `k` pages mapped from address `a` on to those from `pa` on, over the others.
abbrev pub with_pages : ℕ → ℕ → ℕ → ℕ → (ℕ → ℕ) → ℕ → ℕ
with_pages a pa perm k old va =
    if leb (a / 4096) (va / 4096) && ltb (va / 4096) (a / 4096 + k)
    then leaf_pte (pa + (va / 4096 - a / 4096) * 4096) perm
    else old va

-- What an address must be for mappages to map it.
abbrev pub Vacant : Vm → ℕ → ℕ → Type 0
Vacant m root va = (va < maxva) × (is_valid (entry m root va) ≡ false)

pub record Maps (m m' : Vm) (root a pa perm k : ℕ) : Type 0 where
  pub space : IsSpace m' root
  pub vacant : (j : ℕ) → j < k → Vacant m root (a + j * 4096)
  pub maps : (va : ℕ) → va < maxva → entry m' root va ≡ with_pages a pa perm k (entry m root) va

-- Why mappages panics: an address that is out of range, or mapped.
abbrev pub Barred : Vm → ℕ → ℕ → Type 0
Barred m root va = (maxva ≤ va) ⊎ ((va < maxva) × (is_valid (entry m root va) ≡ true))

-- mappages maps all pages; or it is out of memory, with the pages before mapped; or it panics.
pub data Outcome (m : Vm) (root a pa perm n : ℕ) : Run (Bool × Vm) → Type 0 where
  all : (m' : Vm) → Maps m m' root a pa perm n → Outcome m root a pa perm n (ok (true, m'))
  short :
      (k : ℕ) (m' : Vm)
      → k < n
      → m'.free ≡ []
      → Maps m m' root a pa perm k
      → Outcome m root a pa perm n (ok (false, m'))
  clash : (k : ℕ) → k < n → Barred m root (a + k * 4096) → Outcome m root a pa perm n panic

one_page :
    (a pa perm : ℕ) (old : ℕ → ℕ) (va : ℕ)
    → va / 4096 ≡ a / 4096
    → leaf_pte pa perm ≡ with_pages a pa perm 1 old va
one_page a pa perm old va e =
    let zero_pages : pa + (va / 4096 - a / 4096) * 4096 ≡ pa = omega arith in
    let low : leb (a / 4096) (va / 4096) ≡ true = ground arith in
    let high : ltb (va / 4096) (a / 4096 + 1) ≡ true = ground arith in
    rw (low, high, zero_pages) refl

no_page :
    (a pa perm : ℕ) (old : ℕ → ℕ) (va : ℕ)
    → va / 4096 ≢ a / 4096
    → with_pages a pa perm 1 old va ≡ old va
no_page a pa perm old va ne =
    let outside : (leb (a / 4096) (va / 4096) && ltb (va / 4096) (a / 4096 + 1)) ≡ false =
      ground arith in
    rw outside refl

no_pages : (a pa perm : ℕ) (old : ℕ → ℕ) (va : ℕ) → with_pages a pa perm 0 old va ≡ old va
no_pages a pa perm old va =
    let outside : (leb (a / 4096) (va / 4096) && ltb (va / 4096) (a / 4096 + 0)) ≡ false =
      ground arith in
    rw outside refl

first_page : (a : ℕ) → a + 0 * 4096 ≡ a
first_page a = omega arith

later_pages :
    (a pa perm k : ℕ) (old mid : ℕ → ℕ) (va : ℕ)
    → mid va ≡ with_pages a pa perm 1 old va
    → with_pages (a + pgsize) (pa + pgsize) perm k mid va ≡ with_pages a pa perm (suc k) old va
later_pages a pa perm k old mid va e =
    let next : (a + pgsize) / 4096 ≡ a / 4096 + 1 = omega arith in
    elim (Bool-cases (va / 4096 == a / 4096)) [
      | inl here ↦
          let page : va / 4096 ≡ a / 4096 = ground arith in
          let before : leb (a / 4096 + 1) (va / 4096) ≡ false = ground arith in
          let low : leb (a / 4096) (va / 4096) ≡ true = ground arith in
          let high : ltb (va / 4096) (a / 4096 + suc k) ≡ true = ground arith in
          let zero_pages : pa + (va / 4096 - a / 4096) * 4096 ≡ pa = omega arith in
          rw (next, before, low, high, zero_pages) (e ∙ sym (one_page a pa perm old va page))
      | inr there ↦
          let other : va / 4096 ≢ a / 4096 = ground arith in
          let test : (leb (a / 4096 + 1) (va / 4096) && ltb (va / 4096) (a / 4096 + 1 + k))
              ≡ (leb (a / 4096) (va / 4096) && ltb (va / 4096) (a / 4096 + suc k)) =
            ground arith in
          rw (next, test)
            (elim (Bool-cases (leb (a / 4096) (va / 4096) && ltb (va / 4096) (a / 4096 + suc k))) [
              | inl inside ↦
                  let above : a / 4096 < va / 4096 = ground arith in
                  let same : pa + pgsize + (va / 4096 - (a / 4096 + 1)) * 4096
                      ≡ pa + (va / 4096 - a / 4096) * 4096 =
                    omega arith in
                  rw (inside, same) refl
              | inr outside ↦ rw outside (e ∙ no_page a pa perm old va other)
            ])
    ]

-- A page that is written to the level-0 table of its address.
written-Maps :
    (m m' : Vm) (root a pa perm p : ℕ) (tags : ℕ → Tag)
    → IsTree m'.word tags
    → Unused tags m'.free
    → tags root ≡ node 2 0
    → tags p ≡ node 0 (prefix 0 a)
    → find 2 m'.word root a ≡ some p
    → ((va : ℕ) → va < maxva → entry m' root va ≡ entry m root va)
    → a % 4096 ≡ 0
    → a < maxva
    → is_valid (entry m root a) ≡ false
    → Maps m (record m' { word = write m'.word p (px 0 a) (leaf_pte pa perm) }) root a pa perm 1
written-Maps m m' root a pa perm p tags tree unused top leaf found same aligned in_range
      open_entry =
    record {
      space = record {
        tag = tags;
        tree = changed-IsTree m'.word tags tree p a _ leaf;
        unused = unused;
        top = top;
      };
      vacant = λ j lt.
          let place : a ≡ a + j * 4096 = omega arith in
          subst (Vacant m root) place (in_range, open_entry);
      maps = λ va lt. elim (Bool-cases (va / 4096 == a / 4096)) [
        | inl here ↦
            let page : va / 4096 ≡ a / 4096 = ground arith in
            changed-lookup_same m'.word tags tree p a _ leaf 2 root va (omega arith) in_range page
              top found
            ∙ one_page a pa perm (entry m root) va page
        | inr there ↦
            changed-lookup_other m'.word tags tree p a _ leaf 2 root va (omega arith) lt
              (ground arith) top
            ∙ same va lt
            ∙ sym (no_page a pa perm (entry m root) va (ground arith))
      ];
    }

-- What is vacant behind the first page was so at the start.
Vacant-suc :
    (m m1 : Vm) (root a pa perm k : ℕ)
    → Maps m m1 root a pa perm 1
    → ((j : ℕ) → j < k → Vacant m1 root (a + pgsize + j * 4096))
    → (j : ℕ) → j < suc k
    → Vacant m root (a + j * 4096)
Vacant-suc m m1 root a pa perm k first rest zero lt = first.vacant 0 (omega arith)
Vacant-suc m m1 root a pa perm k first rest (suc j) lt =
    let (in_range, free) = rest j (omega arith) in
    let place : a + pgsize + j * 4096 ≡ a + suc j * 4096 = omega arith in
    let va = a + pgsize + j * 4096 in
    subst (Vacant m root) place (
      in_range,
      ap is_valid (
            sym (
              first.maps va in_range
              ∙ no_page a pa perm (entry m root) va (λ e. absurd (omega arith))))
          ∙ free,
    )

Maps-suc :
    (m m1 m' : Vm) (root a pa perm k : ℕ)
    → a % 4096 ≡ 0
    → Maps m m1 root a pa perm 1
    → Maps m1 m' root (a + pgsize) (pa + pgsize) perm k
    → Maps m m' root a pa perm (suc k)
Maps-suc m m1 m' root a pa perm k aligned first rest = record {
  space = rest.space;
  vacant = Vacant-suc m m1 root a pa perm k first rest.vacant;
  maps = λ va lt.
      rest.maps va lt
      ∙ later_pages a pa perm k (entry m root) (entry m1 root) va (first.maps va lt);
}

-- The first of the pages.
map_entry-Outcome :
    (m : Vm) (root a pa perm : ℕ) (space : IsSpace m root)
    → a % 4096 ≡ 0
    → a < maxva
    → (o : Option (ℕ × ℕ)) (m' : Vm) → Walked m space.tag true 2 root a (o, m')
    → Outcome m root a pa perm 1 (map_entry o pa perm m')
unfolding map_entry
map_entry-Outcome m root a pa perm space aligned in_range o m' w = go o w.target
  where
    same : (va : ℕ) → va < maxva → entry m' root va ≡ entry m root va
    same va lt = w.looks 2 root va (omega arith) lt space.top

    top : w.tags root ≡ node 2 0
    top = w.keeps root 2 0 space.top

    go :
        (x : Option (ℕ × ℕ))
        → Target m' w.tags true 2 root a x
        → Outcome m root a pa perm 1 (map_entry x pa perm m')
    go none (missing full) = short 0 m' (omega arith) (full refl) (record {
      space = record { tag = w.tags; tree = w.tree; unused = w.unused; top = top };
      vacant = λ j lt. absurd (omega arith);
      maps = λ va lt. same va lt ∙ sym (no_pages a pa perm (entry m root) va);
    })
    go x (reached p leaf found) = elim (Bool-cases (is_valid (m'.word p (px 0 a)))) [
      | inl taken ↦ rw taken (
          clash 0 (omega arith) (
            rw (first_page a) (
              inr (
                in_range,
                ap is_valid (sym (same a in_range) ∙ find-lookup 2 m'.word root a p found) ∙ taken,
              ))))
      | inr vacant ↦ rw vacant (
          all _ (
            written-Maps m m' root a pa perm p w.tags w.tree w.unused top leaf found same aligned
              in_range
              (ap is_valid (sym (same a in_range) ∙ find-lookup 2 m'.word root a p found)
                ∙ vacant)))
    ]

-- What bars a page behind the first one bars it at the start.
Barred-suc :
    (m m1 : Vm) (root a pa perm k : ℕ)
    → Maps m m1 root a pa perm 1
    → Barred m1 root (a + pgsize + k * 4096)
    → Barred m root (a + suc k * 4096)
Barred-suc m m1 root a pa perm k first (inl high) = inl (omega arith)
Barred-suc m m1 root a pa perm k first (inr (lt, v)) =
    let place : a + pgsize + k * 4096 ≡ a + suc k * 4096 = omega arith in
    let va = a + pgsize + k * 4096 in
    rw (← place) (
      inr (
        lt,
        ap is_valid (
              sym (
                first.maps va lt ∙ no_page a pa perm (entry m root) va (λ e. absurd (omega arith))))
            ∙ v,
      ))

follow :
    (m : Vm) (root a pa perm n : ℕ) (loop : Vm → Run (Bool × Vm)) (r : Run (Bool × Vm))
    → a % 4096 ≡ 0
    → Outcome m root a pa perm 1 r
    → ((m1 : Vm) → IsSpace m1 root → Outcome m1 root (a + pgsize) (pa + pgsize) perm n (loop m1))
    → Outcome m root a pa perm
        (suc n)
        (r >>= λ (mapped, m1). if mapped then loop m1 else ok (false, m1))
follow m root a pa perm n loop r aligned (short k m' lt full maps) rest =
    short k m' (omega arith) full maps
follow m root a pa perm n loop r aligned (clash k lt barred) rest = clash k (omega arith) barred
follow m root a pa perm n loop r aligned (all m1 first) rest = go (loop m1) (rest m1 first.space)
  where
    go :
        (x : Run (Bool × Vm))
        → Outcome m1 root (a + pgsize) (pa + pgsize) perm n x
        → Outcome m root a pa perm (suc n) x
    go x (all m' maps) = all m' (Maps-suc m m1 m' root a pa perm n aligned first maps)
    go x (short k m' lt full maps) =
        short (suc k) m' (omega arith) full (Maps-suc m m1 m' root a pa perm k aligned first maps)
    go x (clash k lt barred) =
        clash (suc k) (omega arith) (Barred-suc m m1 root a pa perm k first barred)

map_loop-Outcome :
    (n : ℕ) (m : Vm) (root a pa perm : ℕ)
    → IsSpace m root
    → a % 4096 ≡ 0
    → Outcome m root a pa perm n (map_loop n root a pa perm m)
unfolding map_loop walk
map_loop-Outcome zero m root a pa perm space aligned = all m (record {
  space = space;
  vacant = λ j lt. absurd (omega arith);
  maps = λ va lt. sym (no_pages a pa perm (entry m root) va);
})
map_loop-Outcome (suc n) m root a pa perm space aligned = elim (Bool-cases (leb maxva a)) [
  | inl high ↦ rw high (clash 0 (omega arith) (rw (first_page a) (inl (ground arith))))
  | inr low ↦
      let in_range : a < maxva = ground arith in
      rw low (
        follow m root a pa perm n _ _ aligned
          (map_entry-Outcome m root a pa perm space aligned in_range _ _ (
            walk_level-Walked 2 true root a m.word m.free space.tag space.tree space.unused
              (omega arith) in_range space.top))
          (λ m1 space1.
            map_loop-Outcome n m1 root (a + pgsize) (pa + pgsize) perm space1 (omega arith)))
]

-- mappages of a tree of page tables, at an aligned address and for a size of whole pages that is not 0,
-- maps exactly the pages of the range, in order, and leaves every other address mapped as it was; it
-- returns -1 only when no page is free, with the first pages of the range mapped; and it panics only at
-- an address of the range that is mapped or not below MAXVA. It maps only pages that were not mapped and
-- are below MAXVA. What is left is a tree of page tables.
pub mappages-Outcome :
    (m : Vm) (root va size pa perm : ℕ)
    → IsSpace m root
    → va % pgsize ≡ 0
    → size % pgsize ≡ 0
    → 0 < size
    → Outcome m root va pa perm (size / pgsize) (mappages root va size pa perm m)
unfolding mappages
mappages-Outcome m root va size pa perm space at_page whole some_size =
    let a : (va % pgsize == 0) ≡ true = ground arith in
    let b : (size % pgsize == 0) ≡ true = ground arith in
    let c : (size == 0) ≡ false = ground arith in
    rw (a, b, c) (map_loop-Outcome (size / pgsize) m root va pa perm space at_page)
