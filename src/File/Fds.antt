-- ===== src/File/Fds.antt =====
-- sys_dup and sys_close of w3/kernel/sysfile.c.
use os_t.Prelude.{
  ℕ, zero, suc, ◌+◌, ◌-◌, ◌≤◌, ◌<◌, ◌≡◌, ◌≢◌, refl, sym, ap, subst, ◌∙◌, inl, inr, Bool, true,
  false, Option, none, some, List, [], ◌==◌, ltb, leb, update, Bool-cases, Option-cases, arith,
}
use os_t.Prelude.Run.{Run, ok, panic, ok_injective}
use os_t.File.{
  nofile, File, Call, filedup, fileclose, argfd, fdalloc_loop, fdalloc, Files, dup_at, sys_dup,
  sys_close,
}

-- fdalloc takes the first descriptor that is not in use.
data Slot (n fd f : ℕ) (ofile : ℕ → Option ℕ) : Option ℕ × (ℕ → Option ℕ) → Type 0 where
  full : ((j : ℕ) → fd ≤ j → j < fd + n → ofile j ≢ none) → Slot n fd f ofile (none, ofile)
  first :
      (i : ℕ)
      → fd ≤ i
      → i < fd + n
      → ofile i ≡ none
      → ((j : ℕ) → fd ≤ j → j < i → ofile j ≢ none)
      → Slot n fd f ofile (some i, update ofile i (some f))

used_next :
    (fd i g : ℕ) (ofile : ℕ → Option ℕ)
    → ofile fd ≡ some g
    → ((j : ℕ) → suc fd ≤ j → j < i → ofile j ≢ none)
    → (j : ℕ) → fd ≤ j
    → j < i
    → ofile j ≢ none
used_next fd i g ofile used later j le lt = elim (Bool-cases (fd == j)) [
  | inl same ↦ let place : fd ≡ j = ground arith in rw (← place) (λ e. absurd (cc))
  | inr differs ↦ later j (ground arith) lt
]

fdalloc_loop-Slot :
    (n fd f : ℕ) (ofile : ℕ → Option ℕ) → Slot n fd f ofile (fdalloc_loop n fd f ofile)
unfolding fdalloc_loop
fdalloc_loop-Slot zero fd f ofile = full (λ j le lt. absurd (omega arith))
fdalloc_loop-Slot (suc n) fd f ofile = elim (Option-cases (ofile fd)) [
  | inl unused ↦
      rw (fdalloc_loop, unused)
        (first fd (omega arith) (omega arith) unused (λ j le lt. absurd (omega arith)))
  | inr (g, used) ↦
      rw (fdalloc_loop, used)
        (go g used (fdalloc_loop n (suc fd) f ofile) (fdalloc_loop-Slot n (suc fd) f ofile))
]
  where
    go :
        (g : ℕ)
        → ofile fd ≡ some g
        → (r : Option ℕ × (ℕ → Option ℕ)) → Slot n (suc fd) f ofile r
        → Slot (suc n) fd f ofile r
    go g used r (full all) =
        full (λ j le lt.
          used_next fd (fd + suc n) g ofile used (λ x a b. all x a (omega arith)) j le lt)
    go g used r (first i le lt e before) =
        first i (omega arith) (omega arith) e (used_next fd i g ofile used before)

-- Descriptor `i` for one more reference to a file.
abbrev duplicate : Files → ℕ → ℕ → Files
duplicate k f i = record {
  file = update k.file f (record (k.file f) { ref = (k.file f).ref + 1 });
  ofile = update k.ofile i (some f);
}

-- What sys_dup does.
pub data Dup (fd : ℕ) (k : Files) : Run (Option ℕ × Files) → Type 0 where
  bad : argfd fd k.ofile ≡ none → Dup fd k (ok (none, k))
  no_slot : ((j : ℕ) → j < nofile → k.ofile j ≢ none) → Dup fd k (ok (none, k))
  no_ref : (f : ℕ) → argfd fd k.ofile ≡ some f → (k.file f).ref ≡ 0 → Dup fd k panic
  duplicated :
      (f i : ℕ)
      → argfd fd k.ofile ≡ some f
      → 0 < (k.file f).ref
      → i < nofile
      → k.ofile i ≡ none
      → ((j : ℕ) → j < i → k.ofile j ≢ none)
      → Dup fd k (ok (some i, duplicate k f i))

-- sys_dup of a descriptor that is not open, or where all NOFILE are, changes nothing and returns -1;
-- otherwise it gives the lowest descriptor that is not open to the same file and counts one more
-- reference to it; and it panics only at a file whose count is 0.
pub sys_dup-Dup : (fd : ℕ) (k : Files) → Dup fd k (sys_dup fd k)
unfolding sys_dup dup_at filedup fdalloc
sys_dup-Dup fd k = elim (Option-cases (argfd fd k.ofile)) [
  | inl closed ↦ rw (sys_dup, closed) (bad closed)
  | inr (f, opened) ↦
      rw (sys_dup, opened)
        (go f opened (fdalloc_loop nofile 0 f k.ofile) (fdalloc_loop-Slot nofile 0 f k.ofile))
]
  where
    go :
        (f : ℕ)
        → argfd fd k.ofile ≡ some f
        → (r : Option ℕ × (ℕ → Option ℕ)) → Slot nofile 0 f k.ofile r
        → Dup fd k (dup_at f r k.file)
    go f opened r (full all) = no_slot (λ j lt. all j (omega arith) lt)
    go f opened r (first i le lt e before) = elim (Bool-cases (ltb (k.file f).ref 1)) [
      | inl unheld ↦ rw unheld (no_ref f opened (ground arith))
      | inr held ↦
          rw held
            (duplicated f i opened (ground arith) lt e (λ j below. before j (omega arith) below))
    ]

-- The calls of a sys_close, and what it leaves.
pub data Restores (k : Files) : Run (Bool × List Call × Files) → Type 0 where
  restores :
      (k' : Files)
      → ((j : ℕ) → k'.ofile j ≡ k.ofile j)
      → ((f : ℕ) → k'.file f ≡ k.file f)
      → Restores k (ok (true, [], k'))

emptied :
    (ofile : ℕ → Option ℕ) (f i : ℕ)
    → ofile i ≡ none
    → (j : ℕ) → update (update ofile i (some f)) i none j ≡ ofile j
emptied ofile f i e j = elim (Bool-cases (i == j)) [
  | inl same ↦ let place : i ≡ j = ground arith in rw same (sym e ∙ ap ofile place)
  | inr differs ↦ rw differs refl
]

count_back :
    (file : ℕ → File) (f g : ℕ)
    → update
        (update file f (record (file f) { ref = (file f).ref + 1 }))
        f
        (record (file f) { ref = (file f).ref + 1 - 1 })
        g
      ≡ file g
count_back file f g = elim (Bool-cases (f == g)) [
  | inl same ↦
      let place : f ≡ g = ground arith in
      let count : (file f).ref + 1 - 1 ≡ (file f).ref = omega arith in
      rw (same, count) (ap file place)
  | inr differs ↦ rw differs refl
]

closes_again :
    (k : Files) (f i : ℕ)
    → 0 < (k.file f).ref
    → i < nofile
    → k.ofile i ≡ none
    → Restores k (sys_close i (duplicate k f i))
unfolding sys_close fileclose argfd
closes_again k f i held lt e =
    let high : leb nofile i ≡ false = ground arith in
    let self : (i == i) ≡ true = ground arith in
    let file_self : (f == f) ≡ true = ground arith in
    let some_left : ltb ((k.file f).ref + 1) 1 ≡ false = ground arith in
    let more : ltb 0 ((k.file f).ref + 1 - 1) ≡ true = ground arith in
    rw (sys_close, argfd, high, self, file_self, some_left, more)
      (restores _ (emptied k.ofile f i e) (count_back k.file f))

-- A sys_close of the descriptor that sys_dup gives succeeds, makes no call for the file, and leaves the
-- descriptors and the files as they were before sys_dup.
pub sys_close-sys_dup :
    (k k' : Files) (fd i : ℕ) → sys_dup fd k ≡ ok (some i, k') → Restores k (sys_close i k')
sys_close-sys_dup k k' fd i e = go (sys_dup fd k) (sys_dup-Dup fd k) e
  where
    go :
        (r : Run (Option ℕ × Files))
        → Dup fd k r
        → r ≡ ok (some i, k')
        → Restores k (sys_close i k')
    go r (bad h) e' = let e0 = ap (λ x. x.0) (ok_injective e') in absurd (cc)
    go r (no_slot h) e' = let e0 = ap (λ x. x.0) (ok_injective e') in absurd (cc)
    go r (no_ref f h z) e' = absurd (cc)
    go r (duplicated f j h held lt unused before) e' =
        let place : j ≡ i = ground (arith, ap (λ x. x.0) (ok_injective e')) in
        let state = ap (λ x. x.1) (ok_injective e') in
        subst (λ x. Restores k (sys_close i x)) state
          (subst (λ x. Restores k (sys_close x (duplicate k f j))) place
            (closes_again k f j held lt unused))
