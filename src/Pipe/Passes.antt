-- ===== src/Pipe/Passes.antt =====
-- What one pass of pipewrite and of piperead, in w3/kernel/pipe.c, does to the queue.
use os_t.Prelude.{
  ℕ, zero, suc, ◌+◌, ◌%◌, ◌<◌, ◌≡◌, refl, sym, subst, ap, ap₂, ◌∙◌, ◌⊎◌, inl, inr, Bool, true,
  false, ◌||◌, not, Option, none, some, List, [], ◌∷◌, ◌++◌, length, Bool-cases, Option-cases,
  arith,
}
use os_t.Pipe.{
  pipesize, uint_range, Pipe, put, is_full, Write, wrote, write_refused, write_asleep, write_pass,
  read_copy,
}
use os_t.Pipe.Queue.{
  IsQueue, put-IsQueue, is_full-true, is_full-false, is_empty-nil, is_empty-cons, first-IsQueue,
  rest-IsQueue,
}

-- The bytes that copyin gives from place `i` on.
pub data Sent (copyin : ℕ → Option ℕ) : ℕ → List ℕ → Type 0 where
  no_bytes : (i : ℕ) → Sent copyin i []
  sends :
      (i x : ℕ) (xs : List ℕ) → copyin i ≡ some x → Sent copyin (i + 1) xs → Sent copyin i (x ∷ xs)

-- How a pass that wrote `k` bytes from `i` on ends, where `len` bytes are then in the pipe: all `n` are
-- written; copyin failed; the pipe is full; or nobody may write.
pub data Ending (copyin : ℕ → Option ℕ) (barred : Bool) (n i len : ℕ) : ℕ → Write → Type 0 where
  all : Ending copyin barred n i len n (wrote (i + n))
  fault : (k : ℕ) → k < n → copyin (i + k) ≡ none → Ending copyin barred n i len k (wrote (i + k))
  full : (k : ℕ) → k < n → len ≡ pipesize → Ending copyin barred n i len k (write_asleep (i + k))
  refused : 0 < n → barred ≡ true → Ending copyin barred n i len 0 write_refused

-- A pass of pipewrite that wrote `ys` behind `xs`.
pub record Written (copyin : ℕ → Option ℕ) (barred : Bool) (n i : ℕ) (xs ys : List ℕ)
    (out : Write × Pipe) : Type 0 where
  pub queue : IsQueue (out.1) (xs ++ ys)
  pub sent : Sent copyin i ys
  pub ending : Ending copyin barred n i (length (xs ++ ys)) (length ys) (out.0)

append-nil : (xs : List ℕ) → xs ≡ xs ++ []
append-nil [] = refl
append-nil (x ∷ xs) = ap (λ zs. x ∷ zs) (append-nil xs)

append-snoc : (xs : List ℕ) (x : ℕ) (ys : List ℕ) → (xs ++ (x ∷ [])) ++ ys ≡ xs ++ (x ∷ ys)
append-snoc [] x ys = refl
append-snoc (z ∷ xs) x ys = ap (λ zs. z ∷ zs) (append-snoc xs x ys)

Ending-next :
    {copyin : ℕ → Option ℕ} {n i len k : ℕ} {w : Write}
    → Ending copyin false n (i + 1) len k w
    → Ending copyin false (suc n) i len (suc k) w
Ending-next {copyin} {n} {i} {len} all =
    subst (λ j. Ending copyin false (suc n) i len (suc n) (wrote j)) (omega arith) all
Ending-next {copyin} {n} {i} {len} (fault k lt e) =
    subst (λ j. Ending copyin false (suc n) i len (suc k) (wrote j)) (omega arith)
      (fault (suc k) (omega arith) (ap copyin (omega arith) ∙ e))
Ending-next {copyin} {n} {i} {len} (full k lt e) =
    subst (λ j. Ending copyin false (suc n) i len (suc k) (write_asleep j)) (omega arith)
      (full (suc k) (omega arith) e)
Ending-next (refused lt e) = absurd (ground arith)

Written-next :
    {copyin : ℕ → Option ℕ} {n i ch : ℕ} {xs ys : List ℕ} {out : Write × Pipe}
    → copyin i ≡ some ch
    → Written copyin false n (i + 1) (xs ++ (ch ∷ [])) ys out
    → Written copyin false (suc n) i xs (ch ∷ ys) out
Written-next {copyin} {n} {i} {ch} {xs} {ys} {out} e w = record {
  queue = subst (IsQueue (out.1)) (append-snoc xs ch ys) w.queue;
  sent = sends i ch ys e w.sent;
  ending =
      subst (λ zs. Ending copyin false (suc n) i (length zs) (suc (length ys)) (out.0))
        (append-snoc xs ch ys) (Ending-next w.ending);
}

-- A pass that writes nothing.
Written-no_bytes :
    {copyin : ℕ → Option ℕ} {barred : Bool} {n i : ℕ} {pi : Pipe} {xs : List ℕ} {w : Write}
    → IsQueue pi xs
    → Ending copyin barred n i (length xs) 0 w
    → Written copyin barred n i xs [] (w, pi)
Written-no_bytes {copyin} {barred} {n} {i} {pi} {xs} {w} q e = record {
  queue = subst (IsQueue pi) (append-nil xs) q;
  sent = no_bytes i;
  ending = subst (λ zs. Ending copyin barred n i (length zs) 0 w) (append-nil xs) e;
}

-- A pass of pipewrite adds to the queue the bytes that copyin gives, in order, until all are written,
-- copyin fails or the pipe is full; it writes nothing if the process is killed or no reader is left.
pub write_pass_lem :
    (copyin : ℕ → Option ℕ) (killed : Bool) (n i : ℕ) (pi : Pipe) (xs : List ℕ)
    → IsQueue pi xs
    → (ys : List ℕ) × Written copyin
        (not pi.readopen || killed)
        n
        i
        xs
        ys
        (write_pass copyin killed n i pi)
unfolding write_pass put
write_pass_lem copyin killed zero i pi xs q = (
  [],
  Written-no_bytes q (
      subst (λ j. Ending copyin (not pi.readopen || killed) 0 i (length xs) 0 (wrote j))
        (omega arith) all),
)
write_pass_lem copyin killed (suc n) i pi xs q = elim (Bool-cases (not pi.readopen || killed)) [
  | inl bar ↦ ([], rw bar (Written-no_bytes q (refused (omega arith) refl)))
  | inr free ↦ elim (Bool-cases (is_full pi)) [
    | inl filled ↦ (
      [],
      rw (free, filled)
          (Written-no_bytes q
            (stay write_asleep (full 0 (omega arith) (is_full-true pi xs q filled)))),
    )
    | inr space ↦ elim (Option-cases (copyin i)) [
      | inl e ↦ (
        [],
        rw (free, space, e)
            (Written-no_bytes q (stay wrote (fault 0 (omega arith) (ap copyin (omega arith) ∙ e)))),
      )
      | inr (ch, e) ↦
          let (ys, w) =
            write_pass_lem copyin killed n (i + 1) (put ch pi) (xs ++ (ch ∷ []))
              (put-IsQueue ch pi xs q (is_full-false pi xs q space)) in
          (
            ch ∷ ys,
            rw (free, space, e)
                (Written-next e (
                  subst
                    (λ b.
                      Written copyin b n (i + 1) (xs ++ (ch ∷ [])) ys
                        (write_pass copyin killed n (i + 1) (put ch pi)))
                    free w)),
          )
    ]
  ]
]
  where
    stay :
        (end : ℕ → Write)
        → Ending copyin false (suc n) i (length xs) 0 (end (i + 0))
        → Ending copyin false (suc n) i (length xs) 0 (end i)
    stay end e = subst (λ j. Ending copyin false (suc n) i (length xs) 0 (end j)) (omega arith) e

-- Where copyout does not fail, the loop of piperead takes the oldest bytes off the queue, `n` of them
-- or all there are, and returns their number.
pub read_copy_lem :
    (copyout : ℕ → Bool) (n i : ℕ) (pi : Pipe) (xs : List ℕ)
    → ((j : ℕ) → copyout j ≡ true)
    → IsQueue pi xs
    → let (count, bytes, pi') = read_copy copyout n i pi in
      (rest : List ℕ) × (xs ≡ bytes ++ rest)
      × IsQueue pi' rest
      × (count ≡ i + length bytes)
      × ((length bytes ≡ n) ⊎ (rest ≡ []))
unfolding read_copy
read_copy_lem copyout zero i pi xs fine q = (xs, refl, q, omega arith, inl refl)
read_copy_lem copyout (suc n) i pi [] fine q =
    rw (is_empty-nil pi q) ([], refl, q, omega arith, inr refl)
read_copy_lem copyout (suc n) i pi (x ∷ xs) fine q =
    let pi1 : Pipe = record pi { nread = (pi.nread + 1) % uint_range } in
    let (rest, e, q', c, d) =
      read_copy_lem copyout n (i + 1) pi1 xs fine (rest-IsQueue pi x xs q) in
    rw (is_empty-cons pi x xs q, fine i)
      (
        rest,
        ap₂ (λ y ys. y ∷ ys) (sym (first-IsQueue pi x xs q)) e,
        q',
        omega arith,
        elim d [ inl f ↦ inl (ap suc f) | inr f ↦ inr f ],
      )
