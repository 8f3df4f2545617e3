-- ===== src/Vm.antt =====
-- w3/kernel/vm.c with the page-table entries of w3/kernel/riscv.h: walk, walkaddr, ismapped, mappages,
-- kvmmap, uvmcreate and uvmunmap. Memory is the 512 words of each page, a page is its address, and a
-- pointer to an entry is a page and an index. kalloc takes the first page of a list, as Kalloc has it.
pub mod Tree
pub mod Grow
pub mod Leaf
pub mod Walk
pub mod Map
pub mod Translate
pub mod Unmap
mod Tests
use os_t.Prelude.{
  ℕ, zero, suc, ◌+◌, ◌-◌, ◌*◌, ◌/◌, ◌%◌, Bool, true, false, ◌&&◌, ◌||◌, not, Option, none, some,
  List, [], ◌∷◌, if◌then◌else◌, ◌==◌, ltb, leb, update,
}
use os_t.Prelude.Run.{Run, ok, panic, ◌>>=◌}
use Prim.Native.Nat.{bit_or}

-- PGSIZE
abbrev pub pgsize : ℕ
pgsize = 4096

-- PHYSTOP
abbrev pub phystop : ℕ
phystop = 2281701376

-- A word of a page that kfree has filled with ones.
abbrev pub junk : ℕ
junk = 72340172838076673

-- MAXVA
abbrev pub maxva : ℕ
maxva = 274877906944

abbrev pub pa2pte : ℕ → ℕ
pa2pte pa = pa / 4096 * 1024

abbrev pub pte2pa : ℕ → ℕ
pte2pa pte = pte / 1024 * 4096

-- `pte & PTE_V`, `pte & PTE_U`
abbrev pub is_valid : ℕ → Bool
is_valid pte = pte % 2 == 1

abbrev pub is_user : ℕ → Bool
is_user pte = pte / 16 % 2 == 1

-- `PA2PTE(pa) | perm | PTE_V`, where PA2PTE leaves the ten low bits clear.
abbrev pub leaf_pte : ℕ → ℕ → ℕ
leaf_pte pa perm = bit_or (perm / 1024) (pa2pte pa / 1024) * 1024 + perm % 1024 / 2 * 2 + 1

-- PX
abbrev pub px : ℕ → ℕ → ℕ
px zero va = va / 4096 % 512
px (suc zero) va = va / 2097152 % 512
px (suc (suc level)) va = va / 1073741824 % 512

pub record Vm : Type 0 where
  pub word : ℕ → ℕ → ℕ
  pub free : List ℕ

-- `*pte = w`
abbrev pub write : (ℕ → ℕ → ℕ) → ℕ → ℕ → ℕ → ℕ → ℕ → ℕ
write word page i w = update word page (update (word page) i w)

-- `memset(page, 0, PGSIZE)`
abbrev pub clear : (ℕ → ℕ → ℕ) → ℕ → ℕ → ℕ → ℕ
clear word page = update word page (λ i. 0)

-- The loop of walk from `level` on.
unfoldable pub walk_level : ℕ → Bool → ℕ → ℕ → Vm → Option (ℕ × ℕ) × Vm
walk_level zero alloc pagetable va m = (some (pagetable, px 0 va), m)
walk_level (suc level) alloc pagetable va m =
    let i = px (suc level) va in
    let pte = m.word pagetable i in
    let below = walk_level level alloc (pte2pa pte) va m in
    if is_valid pte then below else if not alloc then (none, m) else elim m.free [
      | [] ↦ (none, m)
      | page ∷ rest ↦
          walk_level level alloc page va
            (record { word = write (clear m.word page) pagetable i (pa2pte page + 1); free = rest })
    ]

unfoldable pub walk : ℕ → ℕ → Bool → Vm → Run (Option (ℕ × ℕ) × Vm)
walk pagetable va alloc m = if leb maxva va then panic else ok (walk_level 2 alloc pagetable va m)

-- The entry that a pointer leads to.
abbrev pub deref : Vm → Option (ℕ × ℕ) → ℕ
deref m none = 0
deref m (some (page, i)) = m.word page i

-- walkaddr: the physical address, or 0.
unfoldable pub walkaddr : ℕ → ℕ → Vm → ℕ
walkaddr pagetable va m =
    let pte = deref m (walk_level 2 false pagetable va m).0 in
    if leb maxva va
    then 0
    else if not (is_valid pte)
    then 0
    else if not (is_user pte)
    then 0
    else pte2pa pte

unfoldable pub ismapped : ℕ → ℕ → Vm → Run Bool
ismapped pagetable va m = walk pagetable va false m >>= λ (pte, m'). ok (is_valid (deref m' pte))

-- The rest of a round of mappages behind walk: `false` where it returns -1.
unfoldable pub map_entry : Option (ℕ × ℕ) → ℕ → ℕ → Vm → Run (Bool × Vm)
map_entry none pa perm m = ok (false, m)
map_entry (some (page, i)) pa perm m =
    if is_valid (m.word page i)
    then panic
    else ok (true, record m { word = write m.word page i (leaf_pte pa perm) })

-- The loop of mappages, for the pages from `a` on that are left.
unfoldable pub map_loop : ℕ → ℕ → ℕ → ℕ → ℕ → Vm → Run (Bool × Vm)
map_loop zero pagetable a pa perm m = ok (true, m)
map_loop (suc n) pagetable a pa perm m = walk pagetable a true m >>= λ (pte, m').
    map_entry pte pa perm m' >>= λ (mapped, m'').
    let rest = map_loop n pagetable (a + pgsize) (pa + pgsize) perm m'' in
    if mapped then rest else ok (false, m'')

-- mappages: `true` for 0, and `false` for -1.
unfoldable pub mappages : ℕ → ℕ → ℕ → ℕ → ℕ → Vm → Run (Bool × Vm)
mappages pagetable va size pa perm m =
    if not (va % pgsize == 0)
    then panic
    else if not (size % pgsize == 0)
    then panic
    else if size == 0
    then panic
    else map_loop (size / pgsize) pagetable va pa perm m

pub kvmmap : ℕ → ℕ → ℕ → ℕ → ℕ → Vm → Run Vm
kvmmap kpgtbl va pa sz perm m =
    mappages kpgtbl va sz pa perm m >>= λ (done, m'). if done then ok m' else panic

-- uvmcreate: the page table, or `none` for 0.
pub uvmcreate : Vm → Option ℕ × Vm
uvmcreate m = elim m.free [
  | [] ↦ (none, m)
  | page ∷ rest ↦ (some page, record { word = clear m.word page; free = rest })
]

-- kfree of a page, `end` behind the kernel: the page is filled with ones and put in front of the free
-- ones. The link in its first word is left out.
pub kfree : ℕ → ℕ → Vm → Run Vm
kfree end pa m =
    if not (pa % pgsize == 0) || ltb pa end || leb phystop pa
    then panic
    else ok (record { word = update m.word pa (λ i. junk); free = pa ∷ m.free })

-- A round of uvmunmap behind walk: an entry that is not there or not valid is passed over.
unfoldable pub unmap_entry : ℕ → Bool → Option (ℕ × ℕ) → Vm → Run Vm
unmap_entry end do_free none m = ok m
unmap_entry end do_free (some (page, i)) m =
    let pte = m.word page i in
    let freed = if do_free then kfree end (pte2pa pte) m else ok m in
    if not (is_valid pte)
    then ok m
    else if pte % 1024 == 1
    then panic
    else freed >>= λ m'. ok (record m' { word = write m'.word page i 0 })

-- The loop of uvmunmap, for the pages from `a` on that are left.
unfoldable pub unmap_loop : ℕ → Bool → ℕ → ℕ → ℕ → Vm → Run Vm
unmap_loop end do_free zero pagetable a m = ok m
unmap_loop end do_free (suc n) pagetable a m = walk pagetable a false m >>= λ (pte, m').
    unmap_entry end do_free pte m' >>= λ m''. unmap_loop end do_free n pagetable (a + pgsize) m''

unfoldable pub uvmunmap : ℕ → ℕ → ℕ → ℕ → Bool → Vm → Run Vm
uvmunmap end pagetable va npages do_free m =
    if not (va % pgsize == 0) then panic else unmap_loop end do_free npages pagetable va m
