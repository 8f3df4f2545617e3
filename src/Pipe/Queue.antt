-- ===== src/Pipe/Queue.antt =====
-- A pipe of w3/kernel/pipe.c as a queue of at most PIPESIZE bytes.
use os_t.Prelude.{
  ℕ, suc, ◌+◌, ◌%◌, ◌≤◌, ◌<◌, ◌≡◌, refl, ap, ◌∙◌, true, false, List, [], ◌∷◌, ◌++◌, length,
  if◌then◌else◌, ◌==◌, arith,
}
use os_t.Pipe.{pipesize, uint_range, Pipe, pipealloc, put, is_full, is_empty}

-- The ring holds the bytes of the list from place `r` on, counted without wrap-around.
pub data Holds (at : ℕ → ℕ) : ℕ → List ℕ → Type 0 where
  stop : (r : ℕ) → Holds at r []
  byte : (r x : ℕ) (xs : List ℕ) → at (r % pipesize) ≡ x → Holds at (suc r) xs → Holds at r (x ∷ xs)

-- The pipe holds the bytes of the list, the oldest first; `read` is the number of bytes that were ever
-- read.
pub record IsQueue (pi : Pipe) (xs : List ℕ) : Type 0 where
  pub read : ℕ
  pub reads : pi.nread ≡ read % uint_range
  pub writes : pi.nwrite ≡ (read + length xs) % uint_range
  pub room : length xs ≤ pipesize
  pub stored : Holds pi.data_at read xs

length-snoc : (xs : List ℕ) (x : ℕ) → length (xs ++ (x ∷ [])) ≡ length xs + 1
length-snoc [] x = refl
length-snoc (y ∷ xs) x = let rest = length-snoc xs x in omega arith

-- A byte written behind those that are held joins them.
Holds-snoc :
    {at : ℕ → ℕ} {r : ℕ} {xs : List ℕ} (v i : ℕ)
    → i ≡ (r + length xs) % pipesize
    → length xs < pipesize
    → Holds at r xs
    → Holds (λ j. if j == i then v else at j) r (xs ++ (v ∷ []))
Holds-snoc {at} v i e lt (stop r) = byte r v [] (ground arith) (stop (suc r))
Holds-snoc {at} v i e lt (byte r x xs h hs) =
    byte r x (xs ++ (v ∷ [])) (ground arith) (Holds-snoc v i (omega arith) (omega arith) hs)

-- put adds a byte at the end of a queue with room.
pub put-IsQueue :
    (ch : ℕ) (pi : Pipe) (xs : List ℕ)
    → IsQueue pi xs
    → length xs < pipesize
    → IsQueue (put ch pi) (xs ++ (ch ∷ []))
unfolding put
put-IsQueue ch pi xs q lt = record {
  read = q.read;
  reads = q.reads;
  writes = let snoc = length-snoc xs ch in omega arith;
  room = let snoc = length-snoc xs ch in omega arith;
  stored = Holds-snoc ch (pi.nwrite % pipesize) (omega arith) lt q.stored;
}

-- The test for a full ring, and that for an empty one, see through the wrap of the counters.
pub is_full-true :
    (pi : Pipe) (xs : List ℕ) → IsQueue pi xs → is_full pi ≡ true → length xs ≡ pipesize
is_full-true pi xs q e = ground arith

pub is_full-false :
    (pi : Pipe) (xs : List ℕ) → IsQueue pi xs → is_full pi ≡ false → length xs < pipesize
is_full-false pi xs q e = ground arith

pub is_empty-nil : (pi : Pipe) → IsQueue pi [] → is_empty pi ≡ true
is_empty-nil pi q = ground arith

pub is_empty-cons : (pi : Pipe) (x : ℕ) (xs : List ℕ) → IsQueue pi (x ∷ xs) → is_empty pi ≡ false
is_empty-cons pi x xs q = ground arith

Holds-first : {at : ℕ → ℕ} {r x : ℕ} {xs : List ℕ} → Holds at r (x ∷ xs) → at (r % pipesize) ≡ x
Holds-first (byte r x xs h hs) = h

Holds-rest : {at : ℕ → ℕ} {r x : ℕ} {xs : List ℕ} → Holds at r (x ∷ xs) → Holds at (suc r) xs
Holds-rest (byte r x xs h hs) = hs

-- The byte at the read counter is the oldest one.
pub first-IsQueue :
    (pi : Pipe) (x : ℕ) (xs : List ℕ) → IsQueue pi (x ∷ xs) → pi.data_at (pi.nread % pipesize) ≡ x
first-IsQueue pi x xs q =
    let same : pi.nread % pipesize ≡ q.read % pipesize = omega arith in
    ap pi.data_at same ∙ Holds-first q.stored

-- Stepping the read counter drops it.
pub rest-IsQueue :
    (pi : Pipe) (x : ℕ) (xs : List ℕ)
    → IsQueue pi (x ∷ xs)
    → IsQueue (record pi { nread = (pi.nread + 1) % uint_range }) xs
rest-IsQueue pi x xs q = record {
  read = suc q.read;
  reads = omega arith;
  writes = omega arith;
  room = omega arith;
  stored = Holds-rest q.stored;
}

pub pipealloc-IsQueue : (bytes : ℕ → ℕ) → IsQueue (pipealloc bytes) []
unfolding pipealloc
pipealloc-IsQueue bytes = record {
  read = 0;
  reads = refl;
  writes = refl;
  room = omega arith;
  stored = stop 0;
}
