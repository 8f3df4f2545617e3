-- ===== src/File/Refs.antt =====
-- The reference counts of w3/kernel/file.c under any sequence of calls by code that holds references.
use os_t.Prelude.{
  ℕ, zero, suc, ◌+◌, ◌-◌, ◌≤◌, ◌<◌, ◌≡◌, refl, sym, ap, subst, ◌∙◌, inl, inr, true, false, Option,
  none, some, List, [], ◌∷◌, if◌then◌else◌, ◌==◌, ltb, update, Bool-cases, arith,
}
use os_t.Prelude.Run.{Run, ok, ok_injective}
use os_t.File.{
  nfile, FileType, fd_none, fd_pipe, fd_inode, fd_device, File, Call, pipeclose, begin_op, iput,
  end_op, alloc_loop, filealloc, filedup, release, fileclose,
}

-- How many of the references are to a file, or to another entry of a table.
unfoldable pub holders : ℕ → List ℕ → ℕ
holders f [] = 0
holders f (g ∷ gs) = (if f == g then 1 else 0) + holders f gs

-- The references without one to a file.
unfoldable pub without : ℕ → List ℕ → List ℕ
without f [] = []
without f (g ∷ gs) = let rest = g ∷ without f gs in if f == g then gs else rest

pub record System : Type 0 where
  pub file : ℕ → File
  pub refs : List ℕ

-- A call of filealloc that finds a file, of filedup or fileclose by the holder of a reference, or a write
-- to the other fields of files, as the holders do.
pub data Step (s : System) : System → Type 0 where
  alloc :
      (f : ℕ) (file : ℕ → File)
      → filealloc s.file ≡ (some f, file)
      → Step s (record { file = file; refs = f ∷ s.refs })
  dup :
      (f : ℕ) (file : ℕ → File)
      → 0 < holders f s.refs
      → filedup f s.file ≡ ok file
      → Step s (record { file = file; refs = f ∷ s.refs })
  close :
      (f : ℕ) (calls : List Call) (file : ℕ → File)
      → 0 < holders f s.refs
      → fileclose f s.file ≡ ok (calls, file)
      → Step s (record { file = file; refs = without f s.refs })
  set :
      (file : ℕ → File)
      → ((f : ℕ) → (file f).ref ≡ (s.file f).ref)
      → Step s (record { file = file; refs = s.refs })

-- At boot, no file has a reference.
pub data Reach : System → Type 0 where
  boot :
      (file : ℕ → File) → ((f : ℕ) → (file f).ref ≡ 0) → Reach (record { file = file; refs = [] })
  next : {s t : System} → Reach s → Step s t → Reach t

pub count_rest :
    (f g : ℕ) (refs : List ℕ)
    → 0 < holders f refs
    → holders g (without f refs) + (if g == f then 1 else 0) ≡ holders g refs
unfolding holders without
count_rest f g [] h = absurd (omega arith)
count_rest f g (x ∷ xs) h = elim (Bool-cases (f == x)) [
  | inl same ↦ ground arith
  | inr differs ↦ let ih = count_rest f g xs (ground arith) in ground arith
]

-- filealloc finds a file with no reference and gives it one, or every file has references.
pub data Found (n f : ℕ) (file : ℕ → File) : Option ℕ × (ℕ → File) → Type 0 where
  full : ((g : ℕ) → f ≤ g → g < f + n → 0 < (file g).ref) → Found n f file (none, file)
  fresh :
      (g : ℕ)
      → f ≤ g
      → g < f + n
      → (file g).ref ≡ 0
      → Found n f file (some g, update file g (record (file g) { ref = 1 }))

alloc_loop-Found : (n f : ℕ) (file : ℕ → File) → Found n f file (alloc_loop n f file)
unfolding alloc_loop
alloc_loop-Found zero f file = full (λ g le lt. absurd (omega arith))
alloc_loop-Found (suc n) f file = elim (Bool-cases ((file f).ref == 0)) [
  | inl unused ↦ rw unused (fresh f (omega arith) (omega arith) (ground arith))
  | inr used ↦ rw used (later used (alloc_loop n (suc f) file) (alloc_loop-Found n (suc f) file))
]
  where
    later :
        ((file f).ref == 0) ≡ false
        → (r : Option ℕ × (ℕ → File)) → Found n (suc f) file r
        → Found (suc n) f file r
    later used r (full all) = full (λ g le lt. elim (Bool-cases (f == g)) [
      | inl same ↦ let place : f ≡ g = ground arith in rw (← place) (ground arith)
      | inr differs ↦ all g (ground arith) (omega arith)
    ])
    later used r (fresh g le lt z) = fresh g (omega arith) (omega arith) z

pub found :
    (n : ℕ) (file file' : ℕ → File) (f : ℕ) (r : Option ℕ × (ℕ → File))
    → Found n 0 file r
    → r ≡ (some f, file')
    → (f < n)
      × ((file f).ref ≡ 0)
      × ((g : ℕ) → (file' g).ref ≡ (if f == g then 1 else (file g).ref))
found n file file' f r (full all) e = let e0 = ap (λ x. x.0) e in absurd (cc)
found n file file' f r (fresh g le lt z) e =
    let place : g ≡ f = ground (arith, ap (λ x. x.0) e) in
    let table = ap (λ x. x.1) e in
    (
      (let in_table : g < n = omega arith in rw (← place) in_table),
      rw (← place) z,
      λ h.
          ap (λ t. (t h).ref) (sym table)
          ∙ rw (← place) (elim (Bool-cases (g == h)) [
            | inl same ↦ rw same refl
            | inr differs ↦ rw differs refl
          ]),
    )

dup_ref :
    (f : ℕ) (file file' : ℕ → File)
    → filedup f file ≡ ok file'
    → (g : ℕ) → (file' g).ref ≡ (if g == f then 1 else 0) + (file g).ref
unfolding filedup
dup_ref f file file' e g = elim (Bool-cases (ltb (file f).ref 1)) [
  | inl none_left ↦ absurd (ground (arith, rw none_left at e))
  | inr held ↦
      let table = ok_injective (rw held at e) in
      ap (λ t. (t g).ref) (sym table) ∙ elim (Bool-cases (f == g)) [
        | inl same ↦ let place : f ≡ g = ground arith in rw (same, place) (ground arith)
        | inr differs ↦ rw differs (ground arith)
      ]
]

-- A fileclose takes one reference away.
data Closed (f : ℕ) (file : ℕ → File) : Run (List Call × (ℕ → File)) → Type 0 where
  closed :
      (calls : List Call) (file' : ℕ → File)
      → ((g : ℕ) → (file' g).ref + (if g == f then 1 else 0) ≡ (file g).ref)
      → Closed f file (ok (calls, file'))

-- A table in which a file has another count.
with_ref :
    (f : ℕ) (file : ℕ → File) (x : File)
    → x.ref + 1 ≡ (file f).ref
    → (g : ℕ) → (update file f x g).ref + (if g == f then 1 else 0) ≡ (file g).ref
with_ref f file x e g = elim (Bool-cases (f == g)) [
  | inl same ↦ let place : f ≡ g = ground arith in rw (← place) (ground arith)
  | inr differs ↦ ground arith
]

fileclose-Closed : (f : ℕ) (file : ℕ → File) → 0 < (file f).ref → Closed f file (fileclose f file)
unfolding fileclose
fileclose-Closed f file held =
    let some_left : ltb (file f).ref 1 ≡ false = ground arith in
    elim (Bool-cases ((file f).ref == 1)) [
      | inl last ↦
          let rest : ltb 0 ((file f).ref - 1) ≡ false = ground arith in
          rw (some_left, rest) (closed _ _ (with_ref f file _ (ground arith)))
      | inr more ↦
          let rest : ltb 0 ((file f).ref - 1) ≡ true = ground arith in
          rw (some_left, rest) (closed _ _ (with_ref f file _ (ground arith)))
    ]

Step-counts :
    {s t : System}
    → Step s t
    → ((f : ℕ) → (s.file f).ref ≡ holders f s.refs)
    → (f : ℕ) → (t.file f).ref ≡ holders f t.refs
unfolding holders filealloc
Step-counts {s} (alloc f file e) h g =
    let (in_table, unused, counts) =
      found nfile s.file file f _ (alloc_loop-Found nfile 0 s.file) e in
    counts g ∙ elim (Bool-cases (f == g)) [
      | inl same ↦
          let place : f ≡ g = ground arith in
          let no_holder : holders g s.refs ≡ 0 =
            ap (λ x. holders x s.refs) (sym place) ∙ sym (h f) ∙ unused in
          rw (same, no_holder) (ground arith)
      | inr differs ↦ let k = h g in rw differs (ground arith)
    ]
Step-counts {s} (dup f file held e) h g =
    dup_ref f s.file file e g ∙ ap (λ x. (if g == f then 1 else 0) + x) (h g)
Step-counts {s} (close f calls file held e) h g =
    go (fileclose f s.file) (fileclose-Closed f s.file (rw (h f) held)) e
  where
    go :
        (r : Run (List Call × (ℕ → File)))
        → Closed f s.file r
        → r ≡ ok (calls, file)
        → (file g).ref ≡ holders g (without f s.refs)
    go r (closed calls' file' counts) e' =
        let same : file' ≡ file = ap (λ x. x.1) (ok_injective e') in
        let after = ap (λ t. (t g).ref) (sym same) in
        let c = counts g in let w = count_rest f g s.refs held in let k = h g in omega arith
Step-counts (set file same) h g = same g ∙ h g

-- However code that holds references to files allocates, duplicates and closes them, the count of each
-- file is the number of references that are held to it.
pub Reach-counts : {s : System} → Reach s → (f : ℕ) → (s.file f).ref ≡ holders f s.refs
unfolding holders
Reach-counts (boot file h) f = h f
Reach-counts (next r step) f = Step-counts step (Reach-counts r) f

-- What filealloc gives: a file of the table that nobody holds, or nothing, where each file is held.
pub data Alloc (s : System) : Option ℕ × (ℕ → File) → Type 0 where
  all_held : ((g : ℕ) → g < nfile → 0 < holders g s.refs) → Alloc s (none, s.file)
  unheld :
      (f : ℕ)
      → f < nfile
      → holders f s.refs ≡ 0
      → Alloc s (some f, update s.file f (record (s.file f) { ref = 1 }))

-- After any sequence of such calls, filealloc gives a file of the table to which nobody holds a
-- reference, with a count of 1, or finds none only where each of the NFILE files is held.
pub filealloc-Alloc : {s : System} → Reach s → Alloc s (filealloc s.file)
unfolding filealloc
filealloc-Alloc {s} r = go (alloc_loop nfile 0 s.file) (alloc_loop-Found nfile 0 s.file)
  where
    go : (x : Option ℕ × (ℕ → File)) → Found nfile 0 s.file x → Alloc s x
    go x (full all) = all_held (λ g lt. rw (← Reach-counts r g) (all g (omega arith) lt))
    go x (fresh f le lt z) = unheld f lt (sym (Reach-counts r f) ∙ z)

-- The calls with which a file goes: its pipe is closed at its end, or its inode is put inside an operation
-- of the log.
pub data Goes (ff : File) : List Call → Type 0 where
  closes_pipe : ff.type ≡ fd_pipe → Goes ff (pipeclose ff.pipe ff.writable ∷ [])
  puts_inode : ff.type ≡ fd_inode → Goes ff (begin_op ∷ iput ff.ip ∷ end_op ∷ [])
  puts_device : ff.type ≡ fd_device → Goes ff (begin_op ∷ iput ff.ip ∷ end_op ∷ [])
  is_empty : ff.type ≡ fd_none → Goes ff []

release-Goes : (ff : File) (t : FileType) → ff.type ≡ t → Goes ff (release ff)
unfolding release
release-Goes ff fd_none e =
    let calls : release ff ≡ [] = ground arith in subst (Goes ff) (sym calls) (is_empty e)
release-Goes ff fd_pipe e =
    let calls : release ff ≡ pipeclose ff.pipe ff.writable ∷ [] = ground arith in
    subst (Goes ff) (sym calls) (closes_pipe e)
release-Goes ff fd_inode e =
    let calls : release ff ≡ begin_op ∷ iput ff.ip ∷ end_op ∷ [] = ground arith in
    subst (Goes ff) (sym calls) (puts_inode e)
release-Goes ff fd_device e =
    let calls : release ff ≡ begin_op ∷ iput ff.ip ∷ end_op ∷ [] = ground arith in
    subst (Goes ff) (sym calls) (puts_device e)

-- A fileclose by a holder: another holder keeps the file, or the file goes and is free.
pub data Closes (f : ℕ) (s : System) : Run (List Call × (ℕ → File)) → Type 0 where
  kept :
      2 ≤ holders f s.refs
      → Closes f s (ok ([], update s.file f (record (s.file f) { ref = holders f s.refs - 1 })))
  gone :
      (calls : List Call)
      → holders f s.refs ≡ 1
      → Goes (s.file f) calls
      → Closes f s (ok (calls, update s.file f (record (s.file f) { ref = 0; type = fd_none })))

-- The holder of a reference to a file, after any sequence of such calls, can close it without a panic.
-- Where others hold the file too, that makes no call and takes one from its count. Where nobody else does,
-- it closes the file's pipe at its end, or puts its inode inside an operation of the log, and leaves the
-- file with the type FD_NONE and no reference. The other files stay as they were.
pub fileclose-Closes :
    {s : System} (f : ℕ) → Reach s → 0 < holders f s.refs → Closes f s (fileclose f s.file)
unfolding fileclose
fileclose-Closes {s} f r held =
    let count = Reach-counts r f in
    let some_left : ltb (s.file f).ref 1 ≡ false = ground arith in
    elim (Bool-cases (ltb 0 ((s.file f).ref - 1))) [
      | inl more ↦ rw (some_left, more, count) (kept (ground arith))
      | inr last ↦
          rw (some_left, last)
            (gone (release (s.file f)) (ground arith)
              (release-Goes (s.file f) ((s.file f).type) refl))
    ]
