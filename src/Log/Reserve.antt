-- ===== src/Log/Reserve.antt =====
-- File system operations that begin, write and end in any order, against the space in the log of
-- w3/kernel/log.c.
use os_t.Prelude.{
  ℕ, suc, ◌+◌, ◌-◌, ◌*◌, ◌≤◌, ◌<◌, ◌≡◌, refl, sym, ap, subst, ◌∙◌, Bool, true, false, none, some,
  List, [], ◌∷◌, ◌++◌, arith, ◌==◌, length,
}
use os_t.Prelude.Run.{ok}
use os_t.Log.{
  max_op_blocks, log_blocks, Log, System, begin_op, end_op_enter, end_op_leave, end_op_finish,
  log_write, commit, write_head, install_trans, write_log,
}
use os_t.Log.Space.{Recorded, log_write-Recorded}

-- The log and, of each operation between its begin_op and its end_op, how often it has called
-- log_write.
pub record Activity : Type 0 where
  pub sys : System
  pub used : List ℕ

-- What can happen next. An operation calls log_write at most MAXOPBLOCKS times; the last one to end
-- commits, in a step of its own.
pub data Step : Activity → Activity → Type 0 where
  enter :
      (s : System) (used : List ℕ) (l : Log)
      → begin_op s.log ≡ some l
      → Step
          (record { sys = s; used = used })
          (record { sys = record s { log = l }; used = 0 ∷ used })
  write :
      (s s' : System) (before after : List ℕ) (u b : ℕ)
      → u < max_op_blocks
      → log_write b s ≡ ok s'
      → Step
          (record { sys = s; used = before ++ u ∷ after })
          (record { sys = s'; used = before ++ suc u ∷ after })
  leave :
      (s : System) (before after : List ℕ) (u : ℕ) (c : Bool) (l : Log)
      → end_op_enter s.log ≡ ok (c, l)
      → Step
          (record { sys = s; used = before ++ u ∷ after })
          (record { sys = record s { log = l }; used = before ++ after })
  finish :
      (s : System) (used : List ℕ)
      → s.log.committing ≡ true
      → Step (record { sys = s; used = used }) (record { sys = end_op_finish true s; used = used })

pub data Reach (a : Activity) : Activity → Type 0 where
  start : Reach a a
  next : {b c : Activity} → Reach a b → Step b c → Reach a c

-- The calls of log_write that the operations may still make.
abbrev pub reserved : List ℕ → ℕ
reserved [] = 0
reserved (u ∷ us) = (max_op_blocks - u) + reserved us

pub record Inv (a : Activity) : Type 0 where
  pub counted : a.sys.log.outstanding ≡ length a.used
  pub space : a.sys.log.lh.n + reserved a.used ≤ log_blocks
  pub alone : a.sys.log.committing ≡ true → a.sys.log.outstanding ≡ 0
  pub empty : a.sys.log.committing ≡ false → a.sys.log.outstanding ≡ 0 → a.sys.log.lh.n ≡ 0

reserved-le : (us : List ℕ) → reserved us ≤ length us * max_op_blocks
reserved-le [] = omega arith
reserved-le (u ∷ us) = omega (arith, reserved-le us)

reserved-middle :
    (xs ys : List ℕ) (u : ℕ) → reserved (xs ++ u ∷ ys) ≡ (max_op_blocks - u) + reserved (xs ++ ys)
reserved-middle [] ys u = refl
reserved-middle (x ∷ xs) ys u = omega (arith, reserved-middle xs ys u)

length-middle : (xs ys : List ℕ) (u : ℕ) → length (xs ++ u ∷ ys) ≡ suc (length (xs ++ ys))
length-middle [] ys u = refl
length-middle (x ∷ xs) ys u = ap suc (length-middle xs ys u)

-- commit empties the log and leaves its counters alone.
commit_counters :
    (s : System)
    → ((commit s).log.lh.n ≡ 0)
      × ((commit s).log.outstanding ≡ s.log.outstanding)
      × ((commit s).log.committing ≡ s.log.committing)
unfolding commit write_head install_trans write_log
commit_counters s = ground arith

begin_op-some :
    (l l' : Log)
    → begin_op l ≡ some l'
    → (l.committing ≡ false)
      × (l.lh.n + (l.outstanding + 1) * max_op_blocks ≤ log_blocks)
      × (l'.outstanding ≡ l.outstanding + 1)
      × (l'.lh.n ≡ l.lh.n)
      × (l'.committing ≡ false)
unfolding begin_op
begin_op-some l l' e = ground arith

end_op_enter-ok :
    (l l' : Log) (c : Bool)
    → end_op_enter l ≡ ok (c, l')
    → (l.committing ≡ false)
      × (l'.outstanding ≡ l.outstanding - 1)
      × (l'.lh.n ≡ l.lh.n)
      × (l'.committing ≡ (l.outstanding - 1 == 0))
unfolding end_op_enter
end_op_enter-ok l l' c e = ground arith

-- A log_write that the operation has reserved room for succeeds.
write-Recorded :
    (s : System) (before after : List ℕ) (u b : ℕ)
    → u < max_op_blocks
    → Inv (record { sys = s; used = before ++ u ∷ after })
    → (s' : System) × (log_write b s ≡ ok s') × Recorded b s s'
write-Recorded s before after u b lt inv =
    log_write-Recorded b s (omega (arith, inv.space, reserved-middle before after u))
      (omega (arith, inv.counted, length-middle before after u))

Step-Inv : {a b : Activity} → Step a b → Inv a → Inv b
unfolding end_op_finish end_op_leave
Step-Inv (enter s used l e) inv =
    let f = begin_op-some s.log l e in
    record {
      counted = omega (arith, f, inv.counted);
      space = omega (arith, f, inv.space, inv.counted, reserved-le used);
      alone = λ on. ground (arith, f);
      empty = λ off z. omega (arith, f);
    }
Step-Inv (write s s' before after u b lt e) inv =
    let (s1, e1, r1) = write-Recorded s before after u b lt inv in
    let same : s1 ≡ s' = cc in
    let r : Recorded b s s' = subst (λ t. Recorded b s t) same r1 in
    record {
      counted = omega (
        arith,
        r.outstanding,
        inv.counted,
        length-middle before after u,
        length-middle before after (suc u),
      );
      space = ground (
        arith,
        r.count,
        inv.space,
        reserved-middle before after u,
        reserved-middle before after (suc u),
      );
      alone = λ on. r.outstanding ∙ inv.alone (sym r.committing ∙ on);
      empty = λ off z.
          absurd (omega (arith, r.outstanding, z, inv.counted, length-middle before after u));
    }
Step-Inv (leave s before after u c l e) inv =
    let f = end_op_enter-ok s.log l c e in
    record {
      counted = omega (arith, f.1, inv.counted, length-middle before after u);
      space = omega (arith, f.2, inv.space, reserved-middle before after u);
      alone = λ on. ground (arith, f);
      empty = λ off z. absurd (ground (arith, f));
    }
Step-Inv (finish s used on) inv =
    let f = commit_counters s in
    record {
      counted = f.1 ∙ inv.counted;
      space = omega (
        arith,
        f.0,
        f.1,
        inv.counted,
        inv.alone on,
        none_left used (sym inv.counted ∙ inv.alone on),
      );
      alone = λ h. f.1 ∙ inv.alone on;
      empty = λ _ _. f.0;
    }
  where
    none_left : (us : List ℕ) → length us ≡ 0 → reserved us ≡ 0
    none_left [] h = refl
    none_left (x ∷ xs) h = absurd (omega arith)

Reach-Inv : {a b : Activity} → Inv a → Reach a b → Inv b
Reach-Inv inv start = inv
Reach-Inv inv (next r st) = Step-Inv st (Reach-Inv inv r)

-- A log with no operation and nothing logged.
pub record Idle (s : System) : Type 0 where
  pub nobody : s.log.outstanding ≡ 0
  pub nothing : s.log.lh.n ≡ 0
  pub quiet : s.log.committing ≡ false

Idle-Inv : (s : System) → Idle s → Inv (record { sys = s; used = [] })
Idle-Inv s i = record {
  counted = i.nobody;
  space = omega (arith, i.nothing);
  alone = λ on. i.nobody;
  empty = λ _ _. i.nothing;
}

-- From an idle log, however operations interleave: an operation that has called log_write fewer
-- than MAXOPBLOCKS times can call it again for any block; the call never panics, and the block is
-- recorded.
pub log_write_safe :
    {s t : System} (before after : List ℕ) (u b : ℕ)
    → Idle s
    → Reach (record { sys = s; used = [] }) (record { sys = t; used = before ++ u ∷ after })
    → u < max_op_blocks
    → (t' : System) × (log_write b t ≡ ok t') × Recorded b t t'
log_write_safe {s} {t} before after u b idle r lt =
    write-Recorded t before after u b lt (Reach-Inv (Idle-Inv s idle) r)

-- A commit starts only when no operation is active: while `committing` is set, every operation has
-- ended, and begin_op lets none in.
pub committing_alone :
    {s t : System} (used : List ℕ)
    → Idle s
    → Reach (record { sys = s; used = [] }) (record { sys = t; used = used })
    → t.log.committing ≡ true
    → (length used ≡ 0) × (begin_op t.log ≡ none)
unfolding begin_op
committing_alone {s} {t} used idle r on =
    let inv = Reach-Inv (Idle-Inv s idle) r in (sym inv.counted ∙ inv.alone on, rw on)
