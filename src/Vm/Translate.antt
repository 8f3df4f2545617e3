-- ===== src/Vm/Translate.antt =====
-- walkaddr of w3/kernel/vm.c on the map from pages to entries.
use os_t.Prelude.{
  ℕ, zero, suc, ◌+◌, ◌-◌, ◌*◌, ◌/◌, ◌%◌, ◌≤◌, ◌<◌, ◌≡◌, refl, ap, subst, ◌∙◌, inl, inr, Bool, true,
  false, ◌&&◌, leb, ltb, Bool-cases, arith,
}
use os_t.Prelude.Run.{Run, ok}
use os_t.Vm.{
  pgsize, maxva, pa2pte, pte2pa, is_valid, is_user, leaf_pte, px, Vm, walk_level, deref, walkaddr,
  mappages,
}
use os_t.Vm.Tree.{lookup}
use Prim.Native.Nat.{bit_or, bit_or-bitwise}
use os_t.Vm.Map.{IsSpace, entry, Maps, Outcome, all, short, clash, mappages-Outcome}

-- A walk that does not allocate changes nothing, and comes to what the address is mapped to.
pub walk_only :
    (level r va : ℕ) (m : Vm)
    → ((walk_level level false r va m).1 ≡ m)
      × (deref m (walk_level level false r va m).0 ≡ lookup level m.word r va)
unfolding walk_level lookup
walk_only zero r va m = (refl, refl)
walk_only (suc level) r va m = elim (Bool-cases (is_valid (m.word r (px (suc level) va)))) [
  | inl v ↦ rw v (walk_only level _ va m)
  | inr n ↦ rw n (refl, refl)
]

-- walkaddr reads the entry of the address.
walkaddr-entry :
    (m : Vm) (root va : ℕ)
    → va < maxva
    → is_valid (entry m root va) ≡ true
    → is_user (entry m root va) ≡ true
    → walkaddr root va m ≡ pte2pa (entry m root va)
unfolding walkaddr
walkaddr-entry m root va lt v u =
    let low : leb maxva va ≡ false = ground arith in rw (low, (walk_only 2 root va m).1, v, u) refl

walkaddr-Maps :
    (m m' : Vm) (root a pa perm n va : ℕ)
    → Maps m m' root a pa perm n
    → pa % 4096 ≡ 0
    → perm < 1024
    → is_user perm ≡ true
    → va < maxva
    → a ≤ va
    → va / 4096 < a / 4096 + n
    → walkaddr root va m' ≡ pa + (va / 4096 - a / 4096) * 4096
walkaddr-Maps m m' root a pa perm n va maps aligned flags user lt low high =
    let inside : (leb (a / 4096) (va / 4096) && ltb (va / 4096) (a / 4096 + n)) ≡ true =
      ground arith in
    let target : ℕ = pa + (va / 4096 - a / 4096) * 4096 in
    let here : entry m' root va ≡ leaf_pte target perm = maps.maps va lt ∙ rw inside refl in
    let no_more : perm / 1024 ≡ 0 = omega arith in
    let high_bits : bit_or (perm / 1024) (pa2pte target / 1024) ≡ pa2pte target / 1024 =
      ap (λ x. bit_or x (pa2pte target / 1024)) no_more ∙ bit_or-bitwise 0 (pa2pte target / 1024) in
    let v : is_valid (leaf_pte target perm) ≡ true = ground arith in
    let u : is_user (leaf_pte target perm) ≡ true =
      let bit : leaf_pte target perm / 16 % 2 ≡ perm / 16 % 2 = omega arith in rw bit user in
    let back : pte2pa (leaf_pte target perm) ≡ target = omega arith in
    walkaddr-entry m' root va lt (ap is_valid here ∙ v) (ap is_user here ∙ u)
    ∙ ap pte2pa here
    ∙ back

pub mapped :
    (m m' : Vm) (root a pa perm n : ℕ) (r : Run (Bool × Vm))
    → Outcome m root a pa perm n r
    → r ≡ ok (true, m')
    → Maps m m' root a pa perm n
mapped m m' root a pa perm n r (all m1 maps) e =
    let same : m1 ≡ m' = cc in subst (λ x. Maps m x root a pa perm n) same maps
mapped m m' root a pa perm n r (short k m1 lt full maps) e = absurd (ground arith)
mapped m m' root a pa perm n r (clash k lt barred) e = absurd (cc)

-- Where mappages has mapped a range for the user, with flags below 2 ^ 10 and to an aligned physical
-- address, walkaddr finds for each virtual address of the range its own physical page.
pub walkaddr-mappages :
    (m m' : Vm) (root va size pa perm at_va : ℕ)
    → IsSpace m root
    → va % pgsize ≡ 0
    → size % pgsize ≡ 0
    → 0 < size
    → mappages root va size pa perm m ≡ ok (true, m')
    → pa % pgsize ≡ 0
    → perm < 1024
    → is_user perm ≡ true
    → at_va < maxva
    → va ≤ at_va
    → at_va < va + size
    → walkaddr root at_va m' ≡ pa + (at_va / pgsize - va / pgsize) * pgsize
walkaddr-mappages m m' root va size pa perm at_va space at_page whole some_size done aligned flags
      user lt low high =
    walkaddr-Maps m m' root va pa perm (size / pgsize) at_va
      (mapped m m' root va pa perm (size / pgsize) _
        (mappages-Outcome m root va size pa perm space at_page whole some_size) done)
      aligned flags user lt low (omega arith)
