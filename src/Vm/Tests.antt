-- ===== src/Vm/Tests.antt =====
-- Runs of w3/kernel/vm.c on a table with three free pages.
use os_t.Prelude.{ℕ, ◌≡◌, refl, Bool, true, false, [], ◌∷◌, if◌then◌else◌, ◌==◌, arith}
use os_t.Prelude.Run.{Run, ok, panic, out_of_fuel}
use os_t.Vm.{Vm, walk_level, walk, walkaddr, ismapped, map_entry, map_loop, mappages, uvmunmap}
use os_t.Vm.Tree.{Tag, plain, node}
use os_t.Vm.Map.{IsSpace, Outcome, mappages-Outcome}
use os_t.Vm.Translate.{mapped, walkaddr-mappages}
use os_t.Vm.Unmap.{Removal, uvmunmap-Removal}

abbrev memory : Vm
memory = record { word = λ page i. 0; free = 8192 ∷ 12288 ∷ 16384 ∷ [] }

abbrev tags : ℕ → Tag
tags page = if page == 4096 then node 2 0 else plain

memory-IsSpace : IsSpace memory 4096
memory-IsSpace = record {
  tag = tags;
  tree = record { child = λ p level q i e lt v. absurd (cc) };
  unused = (
    refl,
    refl,
    (λ e. absurd (omega arith), (λ e. absurd (omega arith), tt)),
    (refl, refl, (λ e. absurd (omega arith), tt), (refl, refl, tt, tt)),
  );
  top = refl;
}

abbrev state : Run (Bool × Vm) → Vm
state panic = memory
state out_of_fuel = memory
state (ok (done, m)) = m

-- Two pages from 8192 on are mapped.
two_pages : Vm
two_pages = state (mappages 4096 8192 8192 65536 18 memory)

two_pages_done : mappages 4096 8192 8192 65536 18 memory ≡ ok (true, two_pages)
unfolding two_pages mappages map_loop map_entry walk walk_level
two_pages_done = refl

second_page : walkaddr 4096 12300 two_pages ≡ 69632
unfolding two_pages mappages map_loop map_entry walk walk_level walkaddr
second_page = refl

third_page : ismapped 4096 16384 two_pages ≡ ok false
unfolding two_pages mappages map_loop map_entry walk walk_level ismapped
third_page = refl

mappages-Outcome_example :
    Outcome memory 4096 8192 65536 18 2 (mappages 4096 8192 8192 65536 18 memory)
mappages-Outcome_example =
    mappages-Outcome memory 4096 8192 8192 65536 18 memory-IsSpace refl refl (omega arith)

walkaddr-mappages_example : walkaddr 4096 12300 two_pages ≡ 69632
walkaddr-mappages_example =
    walkaddr-mappages memory two_pages 4096 8192 8192 65536 18 12300 memory-IsSpace refl refl
      (omega arith) two_pages_done refl (omega arith) refl (omega arith) (omega arith) (omega arith)

two_pages-IsSpace : IsSpace two_pages 4096
two_pages-IsSpace =
    (mapped memory two_pages 4096 8192 65536 18 2 _ mappages-Outcome_example two_pages_done).space

uvmunmap-Removal_example :
    Removal two_pages 4096 8192 2 two_pages-IsSpace.tag (uvmunmap 0 4096 8192 2 false two_pages)
uvmunmap-Removal_example = uvmunmap-Removal two_pages 4096 8192 2 0 two_pages-IsSpace refl
