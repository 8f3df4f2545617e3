-- ===== src/Ph.antt =====
-- w5/notxv6/ph-with-mutex-locks.c: a hash table of chains, with a lock for each bucket. A chain is the
-- list of its entries; put holds its bucket's lock from end to end, so it is one step. Keys are what
-- random returns, which is not negative.
pub mod Lookup
pub mod Threads
mod Tests
use os_t.Prelude.{
  ℕ, ◌≡◌, zero, suc, ◌+◌, ◌%◌, Bool, true, false, Option, none, some, List, [], ◌∷◌, if◌then◌else◌,
  ◌==◌,
}

-- NBUCKET
abbrev pub nbucket : ℕ
nbucket = 5

-- `struct entry`, less `next`
pub record Entry : Type 0 where
  pub key : ℕ
  pub value : ℕ

-- The search for a key in a chain.
pub find_entry : ℕ → List Entry → Option Entry
find_entry k [] = none
find_entry k (e ∷ es) = let rest = find_entry k es in if e.key == k then some e else rest

-- `e->value = value` at the entry that the search finds.
pub set_value : ℕ → ℕ → List Entry → List Entry
set_value k v [] = []
set_value k v (e ∷ es) =
    let rest = set_value k v es in if e.key == k then record e { value = v } ∷ es else e ∷ rest

pub insert : ℕ → ℕ → List Entry → List Entry
insert k v n = record { key = k; value = v } ∷ n

pub put_chain : ℕ → ℕ → List Entry → List Entry
put_chain k v es = elim (find_entry k es) [ none ↦ insert k v es | some e ↦ set_value k v es ]

pub put : ℕ → ℕ → (ℕ → List Entry) → ℕ → List Entry
put k v table i = if i == k % nbucket then put_chain k v (table i) else table i

pub get : ℕ → (ℕ → List Entry) → Option Entry
get k table = find_entry k (table (k % nbucket))

-- The table, and for each thread the keys of its share that put_thread has left.
pub record Puts : Type 0 where
  pub table : ℕ → List Entry
  pub left : ℕ → List ℕ

-- A round of put_thread in thread `n`; the threads take turns in any order.
pub data Step (s : Puts) : Puts → Type 0 where
  put_round :
      (n k : ℕ) (ks : List ℕ)
      → s.left n ≡ k ∷ ks
      → Step s (record { table = put k n s.table; left = λ i. if i == n then ks else s.left i })

pub data Reach (s : Puts) : Puts → Type 0 where
  start : Reach s s
  next : {t u : Puts} → Reach s t → Step t u → Reach s u

-- What get_thread counts: the keys that it does not find.
pub missing : List ℕ → (ℕ → List Entry) → ℕ
missing [] table = 0
missing (k ∷ keys) table = elim (get k table) [
  | none ↦ missing keys table + 1
  | some e ↦ missing keys table
]
