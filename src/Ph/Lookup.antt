-- ===== src/Ph/Lookup.antt =====
-- put and get of w5/notxv6/ph-with-mutex-locks.c as a map from keys to values.
use os_t.Prelude.{
  ℕ, ◌%◌, ◌≡◌, ap, ◌∙◌, inl, inr, Option, none, some, List, [], ◌∷◌, if◌then◌else◌, ◌==◌,
  Bool-cases, Option-cases, arith,
}
use os_t.Ph.{nbucket, Entry, find_entry, set_value, insert, put_chain, put, get}

abbrev pub after_put : ℕ → ℕ → ℕ → Option Entry → Option Entry
after_put k v j old = if j == k then some (record { key = k; value = v }) else old

find_entry-set_value :
    (k v j : ℕ) (es : List Entry) (e : Entry)
    → find_entry k es ≡ some e
    → find_entry j (set_value k v es) ≡ after_put k v j (find_entry j es)
unfolding find_entry set_value
find_entry-set_value k v j [] e h = absurd (ground arith)
find_entry-set_value k v j (d ∷ es) e h = elim (Bool-cases (d.key == k)) [
  | inl y ↦ ground arith
  | inr n ↦ let rest = find_entry-set_value k v j es e (ground arith) in ground arith
]

find_entry-insert :
    (k v j : ℕ) (es : List Entry) → find_entry j (insert k v es) ≡ after_put k v j (find_entry j es)
unfolding insert find_entry
find_entry-insert k v j es = ground arith

chosen : ℕ → ℕ → List Entry → Option Entry → List Entry
chosen k v es found = elim found [ none ↦ insert k v es | some e ↦ set_value k v es ]

find_entry-put_chain :
    (k v j : ℕ) (es : List Entry)
    → find_entry j (put_chain k v es) ≡ after_put k v j (find_entry j es)
unfolding put_chain chosen
find_entry-put_chain k v j es = elim (Option-cases (find_entry k es)) [
  | inl h ↦ ap (λ o. find_entry j (chosen k v es o)) h ∙ find_entry-insert k v j es
  | inr (e, h) ↦ ap (λ o. find_entry j (chosen k v es o)) h ∙ find_entry-set_value k v j es e h
]

-- put binds its key to its value, and changes what get finds for no other key.
pub get-put :
    (k v j : ℕ) (table : ℕ → List Entry)
    → get j (put k v table) ≡ (if j == k then some (record { key = k; value = v }) else get j table)
unfolding get put
get-put k v j table = elim (Bool-cases (j % nbucket == k % nbucket)) [
  | inl y ↦ rw y (find_entry-put_chain k v j (table (j % nbucket)))
  | inr n ↦ ground arith
]
