-- ===== src/Proc/Forks.antt =====
-- allocproc and kfork of w3/kernel/proc.c, and the pids.
use os_t.Prelude.{
  ℕ, ◌+◌, ◌≡◌, refl, sym, subst, ◌∙◌, inl, inr, Bool, true, false, Option, none, some, arith, ◌==◌,
  Bool-cases,
}
use os_t.Proc.{
  nproc, unused, used, runnable, same_state, Proc, Kernel, update, set_proc, scan, allocpid,
  allocproc_at, allocproc, dup_files, kfork_at, kfork,
}
use os_t.Proc.Pids.{PidInv, PidInv-same, set_proc-SameTable, freeproc-PidInv}

-- A new pid in the slot `i`, which may have changed otherwise.
fresh-PidInv :
    (i : ℕ) (k : Kernel) (p' : Proc)
    → p'.pid ≡ k.nextpid
    → same_state p'.state unused ≡ false
    → PidInv k
    → PidInv (record k { proc = update k.proc i p'; nextpid = k.nextpid + 1 })
fresh-PidInv i k p' e u inv = record {
  positive = omega arith;
  below = λ j lt. ground (arith, inv.below j lt);
  free = λ j lt. elim (Bool-cases (i == j)) [
    | inl here ↦ rw here (u ∙ ground (arith, inv.positive))
    | inr past ↦ rw past (inv.free j lt)
  ];
  unique = λ a b la lb e' nz. ground (arith, inv.unique a b la lb, inv.below a la, inv.below b lb);
}

-- allocproc keeps the pids apart, and what it returns is a slot of the table that is in use.
record Allocated (r : Option ℕ × Kernel) : Type 0 where
  inv : PidInv r.1
  slot : (i : ℕ) → r.0 ≡ some i → same_state ((r.1.proc i).state) unused ≡ false

allocproc_at-Allocated :
    (frame table i : ℕ) (k : Kernel) → PidInv k → Allocated (allocproc_at frame table i k)
unfolding allocproc_at allocpid
allocproc_at-Allocated frame table i k inv = elim (Bool-cases (frame == 0)) [
  | inl no_frame ↦
      rw no_frame (record { inv = freeproc-PidInv i k2 inv2; slot = λ j e. absurd (cc) })
  | inr got ↦ elim (Bool-cases (table == 0)) [
    | inl no_table ↦
        rw (got, no_table) (record { inv = freeproc-PidInv i k3 inv3; slot = λ j e. absurd (cc) })
    | inr both ↦
        rw (got, both)
          (record {
            inv = inv3;
            slot = λ j e.
                subst (λ t. same_state ((k3.proc t).state) unused ≡ false) (ground arith) used3;
          })
  ]
]
  where
    k2 : Kernel
    k2 =
        set_proc i (record (k.proc i) { pid = k.nextpid; state = used; trapframe = frame })
          (record k { nextpid = k.nextpid + 1 })

    k3 : Kernel
    k3 = set_proc i (record (k2.proc i) { pagetable = table }) k2

    inv2 : PidInv k2
    inv2 =
        fresh-PidInv i k (record (k.proc i) { pid = k.nextpid; state = used; trapframe = frame })
          refl refl inv

    used3 : same_state ((k3.proc i).state) unused ≡ false
    used3 = ground arith

    inv3 : PidInv k3
    inv3 =
        PidInv-same k2 k3
          (set_proc-SameTable i k2 (record (k2.proc i) { pagetable = table }) refl refl) inv2

allocproc-Allocated :
    (frame table : ℕ) (k : Kernel) → PidInv k → Allocated (allocproc frame table k)
unfolding allocproc
allocproc-Allocated frame table k inv =
    go (scan nproc 0 (λ i. same_state ((k.proc i).state) unused))
  where
    go :
        (found : Option ℕ)
        → Allocated (elim found as (λ _. Option ℕ × Kernel) [
          | none ↦ (none, k)
          | some i ↦ allocproc_at frame table i k
        ])
    go none = record { inv = inv; slot = λ i e. absurd (cc) }
    go (some i) = allocproc_at-Allocated frame table i k inv

kfork_at-PidInv :
    (c : Bool) (p np : ℕ) (k : Kernel)
    → PidInv k
    → same_state ((k.proc np).state) unused ≡ false
    → PidInv (kfork_at c p np k).1
unfolding kfork_at
kfork_at-PidInv true p np k inv busy =
    let pp = k.proc p in
    let child = record (k.proc np) {
      state = runnable;
      sz = pp.sz;
      ofile = dup_files pp.ofile ((k.proc np).ofile);
      cwd = pp.cwd;
      name = pp.name;
      monitor_mask = pp.monitor_mask;
      parent = some p;
    } in
    let s = set_proc-SameTable np k child refl (sym busy) in
    PidInv-same k (kfork_at true p np k).1 (record { pids = s.pids; frees = s.frees; next = refl })
      inv
kfork_at-PidInv false p np k inv busy = freeproc-PidInv np k inv

pub kfork-PidInv :
    (frame table : ℕ) (copied : Bool) (p : ℕ) (k : Kernel)
    → PidInv k
    → PidInv (kfork frame table copied p k).1
unfolding kfork
kfork-PidInv frame table copied p k inv =
    go (allocproc frame table k).0 (allocproc frame table k).1
      (allocproc-Allocated frame table k inv)
  where
    go :
        (found : Option ℕ) (k1 : Kernel)
        → Allocated (found, k1)
        → PidInv
            (elim found as (λ _. Option ℕ × Kernel) [
              | none ↦ (none, k1)
              | some np ↦ kfork_at copied p np k1
            ]).1
    go none k1 a = a.inv
    go (some np) k1 a = kfork_at-PidInv copied p np k1 a.inv (a.slot np refl)
