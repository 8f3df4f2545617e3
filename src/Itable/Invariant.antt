-- ===== src/Itable/Invariant.antt =====
-- The table of inodes of w3/kernel/fs.c and the references to it.
use os_t.Prelude.{
  ℕ, ◌+◌, ◌-◌, ◌<◌, ◌≡◌, refl, sym, ap, subst, ◌∙◌, inl, inr, true, false, List, ◌∷◌, if◌then◌else◌,
  ◌==◌, update, Bool-cases, arith,
}
use os_t.File.Refs.{holders, without, count_rest}
use os_t.Itable.{ninode, Entry, is_copy}

pub record System : Type 0 where
  pub inode : ℕ → Entry
  pub refs : List ℕ

-- Every count is the number of references that are held, and no inode has two copies in use.
pub record IsTable (s : System) : Type 0 where
  pub counts : (i : ℕ) → (s.inode i).ref ≡ holders i s.refs
  pub unique :
      (i j : ℕ)
      → i < ninode
      → j < ninode
      → 0 < (s.inode i).ref
      → 0 < (s.inode j).ref
      → (s.inode i).dev ≡ (s.inode j).dev
      → (s.inode i).inum ≡ (s.inode j).inum
      → i ≡ j

-- The same inodes, of which none is newly in use.
module _ (s : System) (inode : ℕ → Entry) (refs : List ℕ) (h : IsTable s)
    (count : (i : ℕ) → (inode i).ref ≡ holders i refs)
    (devs : (i : ℕ) → (inode i).dev ≡ (s.inode i).dev)
    (inums : (i : ℕ) → (inode i).inum ≡ (s.inode i).inum)
    (uses : (i : ℕ) → 0 < (inode i).ref → 0 < (s.inode i).ref) where
  pub kept-IsTable : IsTable (record { inode = inode; refs = refs })
  kept-IsTable = record {
    counts = count;
    unique = λ i j li lj ui uj d n.
        h.unique i j li lj (uses i ui) (uses j uj) (sym (devs i) ∙ d ∙ devs j)
          (sym (inums i) ∙ n ∙ inums j);
  }

-- A field of the table behind a write to an entry.
updated {ℓ} :
    {A : Type ℓ} (inode : ℕ → Entry) (i : ℕ) (ip : Entry) (field : Entry → A) (j : ℕ)
    → field (update inode i ip j) ≡ (if i == j then field ip else field (inode j))
updated inode i ip field j = elim (Bool-cases (i == j)) [
  | inl same ↦ rw same refl
  | inr differs ↦ rw differs refl
]

elsewhere {ℓ} :
    {A : Type ℓ} (inode : ℕ → Entry) (i : ℕ) (ip : Entry) (field : Entry → A) (j : ℕ)
    → (i == j) ≡ false
    → field (update inode i ip j) ≡ field (inode j)
elsewhere inode i ip field j differs = rw differs refl

there {ℓ} :
    {A : Type ℓ} (inode : ℕ → Entry) (i : ℕ) (ip : Entry) (field : Entry → A) (j : ℕ)
    → (i == j) ≡ true
    → field (update inode i ip j) ≡ field ip
there inode i ip field j same = rw same refl

unchanged {ℓ} :
    {A : Type ℓ} (inode : ℕ → Entry) (i : ℕ) (ip : Entry) (field : Entry → A)
    → field ip ≡ field (inode i)
    → (j : ℕ) → field (update inode i ip j) ≡ field (inode j)
unchanged inode i ip field e j = elim (Bool-cases (i == j)) [
  | inl same ↦ let place : i ≡ j = ground arith in rw same (e ∙ ap (λ x. field (inode x)) place)
  | inr differs ↦ rw differs refl
]

-- A write to the count of an entry, and to its fields other than the device and the number.
module _ (s : System) (i : ℕ) (ip : Entry) (refs : List ℕ) (h : IsTable s)
    (dev : ip.dev ≡ (s.inode i).dev) (inum : ip.inum ≡ (s.inode i).inum)
    (used : 0 < (s.inode i).ref)
    (count : (j : ℕ) → (if i == j then ip.ref else holders j s.refs) ≡ holders j refs) where
  pub written-IsTable : IsTable (record { inode = update s.inode i ip; refs = refs })
  written-IsTable =
      kept-IsTable s (update s.inode i ip) refs h
        (λ j.
          updated s.inode i ip (λ x. x.ref) j
          ∙ ap (λ n. if i == j then ip.ref else n) (h.counts j)
          ∙ count j)
        (unchanged s.inode i ip (λ x. x.dev) dev) (unchanged s.inode i ip (λ x. x.inum) inum)
        (λ j u. elim (Bool-cases (i == j)) [
          | inl same ↦
              let place : i ≡ j = ground arith in subst (λ x. 0 < (s.inode x).ref) place used
          | inr differs ↦
              subst (λ n. 0 < n) (updated s.inode i ip (λ x. x.ref) j ∙ rw differs refl) u
        ])

-- One more reference, and one less.
pub raised :
    (s : System) (i j : ℕ)
    → IsTable s
    → (if i == j then (s.inode i).ref + 1 else holders j s.refs) ≡ holders j (i ∷ s.refs)
unfolding holders
raised s i j h = elim (Bool-cases (i == j)) [
  | inl same ↦ let place : i ≡ j = ground arith in let c = h.counts i in rw (← place) (ground arith)
  | inr differs ↦ ground arith
]

pub lowered :
    (s : System) (i j : ℕ)
    → IsTable s
    → 0 < holders i s.refs
    → (if i == j then (s.inode i).ref - 1 else holders j s.refs) ≡ holders j (without i s.refs)
lowered s i j h held =
    let w = count_rest i j s.refs held in
    elim (Bool-cases (i == j)) [
      | inl same ↦
          let place : i ≡ j = ground arith in
          let c : (s.inode i).ref ≡ holders j s.refs =
            h.counts i ∙ ap (λ x. holders x s.refs) place in
          rw same (ground arith)
      | inr differs ↦ rw differs (ground arith)
    ]

pub copy_fields :
    (dev inum : ℕ) (ip : Entry)
    → is_copy dev inum ip ≡ true
    → (0 < ip.ref) × (ip.dev ≡ dev) × (ip.inum ≡ inum)
copy_fields dev inum ip e = ground arith

no_copy :
    (dev inum : ℕ) (ip : Entry)
    → is_copy dev inum ip ≡ false
    → 0 < ip.ref
    → ip.dev ≡ dev
    → ip.inum ≡ inum
    → ⊥
no_copy dev inum ip e u d n = ground arith

-- A new copy.
pub fresh-IsTable :
    (s : System) (dev inum i : ℕ)
    → IsTable s
    → (s.inode i).ref ≡ 0
    → ((j : ℕ) → j < ninode → is_copy dev inum (s.inode j) ≡ false)
    → IsTable (record {
      inode =
          update s.inode i (record (s.inode i) { dev = dev; inum = inum; ref = 1; valid = false });
      refs = i ∷ s.refs;
    })
fresh-IsTable s dev inum i h z other = record {
  counts = λ j.
      updated s.inode i _ (λ x. x.ref) j
      ∙ ap (λ n. if i == j then 1 else n) (h.counts j)
      ∙ ap (λ n. if i == j then n + 1 else holders j s.refs) (sym z)
      ∙ raised s i j h;
  unique = λ j k lj lk uj uk d n. elim (Bool-cases (i == j)) [
    | inl first ↦ elim (Bool-cases (i == k)) [
      | inl second ↦ ground arith
      | inr old ↦ absurd (
          clash k lk old
            (sym (elsewhere s.inode i new (λ x. x.dev) k old)
              ∙ sym d
              ∙ there s.inode i new (λ x. x.dev) j first)
            (sym (elsewhere s.inode i new (λ x. x.inum) k old)
              ∙ sym n
              ∙ there s.inode i new (λ x. x.inum) j first)
            (subst (λ c. 0 < c) (elsewhere s.inode i new (λ x. x.ref) k old) uk))
    ]
    | inr old ↦ elim (Bool-cases (i == k)) [
      | inl second ↦ absurd (
          clash j lj old
            (sym (elsewhere s.inode i new (λ x. x.dev) j old)
              ∙ d
              ∙ there s.inode i new (λ x. x.dev) k second)
            (sym (elsewhere s.inode i new (λ x. x.inum) j old)
              ∙ n
              ∙ there s.inode i new (λ x. x.inum) k second)
            (subst (λ c. 0 < c) (elsewhere s.inode i new (λ x. x.ref) j old) uj))
      | inr old' ↦
          h.unique j k lj lk (subst (λ c. 0 < c) (elsewhere s.inode i new (λ x. x.ref) j old) uj)
            (subst (λ c. 0 < c) (elsewhere s.inode i new (λ x. x.ref) k old') uk)
            (sym (elsewhere s.inode i new (λ x. x.dev) j old)
              ∙ d
              ∙ elsewhere s.inode i new (λ x. x.dev) k old')
            (sym (elsewhere s.inode i new (λ x. x.inum) j old)
              ∙ n
              ∙ elsewhere s.inode i new (λ x. x.inum) k old')
    ]
  ];
}
  where
    new : Entry
    new = record (s.inode i) { dev = dev; inum = inum; ref = 1; valid = false }

    clash :
        (k : ℕ)
        → k < ninode
        → (i == k) ≡ false
        → (s.inode k).dev ≡ dev
        → (s.inode k).inum ≡ inum
        → 0 < (s.inode k).ref
        → ⊥
    clash k lk old d n u = no_copy dev inum (s.inode k) (other k lk) u d n
