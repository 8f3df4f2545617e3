-- ===== src/Pipe/Fifo.antt =====
-- A pipe of w3/kernel/pipe.c between its writers and its readers.
use os_t.Prelude.{
  ℕ, ◌+◌, ◌≡◌, refl, sym, ap, ap₂, ◌∙◌, inl, inr, Bool, true, false, ◌&&◌, Option, some, List, [],
  ◌∷◌, ◌++◌, length, if◌then◌else◌, Bool-cases, arith,
}
use os_t.Pipe.{
  Pipe, pipealloc, pipeclose, is_empty, Write, wrote, write_refused, write_asleep, write_pass, Read,
  got, read_refused, read_asleep, read_pass,
}
use os_t.Pipe.Queue.{IsQueue, pipealloc-IsQueue}
use os_t.Pipe.Passes.{
  Sent, no_bytes, sends, Ending, all, fault, full, refused, write_pass_lem, read_copy_lem,
}

-- The pipe with the bytes that its writers have sent and that its readers have received so far.
pub record Traffic : Type 0 where
  pub pipe : Pipe
  pub sent : List ℕ
  pub received : List ℕ

-- Where a pass of pipewrite from byte `i` on has come to.
abbrev pub reached : ℕ → Write → ℕ
reached i (wrote j) = j
reached i write_refused = i
reached i (write_asleep j) = j

abbrev pub bytes_read : Read → List ℕ
bytes_read (got n bytes) = bytes
bytes_read read_refused = []
bytes_read read_asleep = []

-- A pass of any writer, which sends the bytes that copyin gives up to where the pass has come; a pass
-- of any reader whose copyout works; a close of either end.
pub data Step (t : Traffic) : Traffic → Type 0 where
  write :
      (copyin : ℕ → Option ℕ) (killed : Bool) (n i : ℕ) (ys : List ℕ)
      → Sent copyin i ys
      → reached i (write_pass copyin killed n i t.pipe).0 ≡ i + length ys
      → Step t (record t { pipe = (write_pass copyin killed n i t.pipe).1; sent = t.sent ++ ys })
  read :
      (copyout : ℕ → Bool) (killed : Bool) (n : ℕ)
      → ((j : ℕ) → copyout j ≡ true)
      → Step t (record t {
        pipe = (read_pass copyout killed n t.pipe).1;
        received = t.received ++ bytes_read (read_pass copyout killed n t.pipe).0;
      })
  close : (writable : Bool) → Step t (record t { pipe = (pipeclose writable t.pipe).1 })

pub data Reach (s : Traffic) : Traffic → Type 0 where
  start : Reach s s
  next : {t u : Traffic} → Reach s t → Step t u → Reach s u

abbrev pub fresh : (ℕ → ℕ) → Traffic
fresh bytes = record { pipe = pipealloc bytes; sent = []; received = [] }

-- What was sent is what was received and then what the pipe holds.
pub record IsFifo (t : Traffic) : Type 0 where
  pub held : List ℕ
  pub queue : IsQueue t.pipe held
  pub order : t.sent ≡ t.received ++ held

Ending-reached :
    {copyin : ℕ → Option ℕ} {barred : Bool} {n i len k : ℕ} {w : Write}
    → Ending copyin barred n i len k w
    → reached i w ≡ i + k
Ending-reached all = refl
Ending-reached (fault k lt e) = refl
Ending-reached (full k lt e) = refl
Ending-reached (refused lt e) = omega arith

some_injective : {a b : ℕ} → some a ≡ some b → a ≡ b
some_injective e = ground arith

-- copyin gives the same bytes every time.
Sent-unique :
    {copyin : ℕ → Option ℕ} {i : ℕ} {ys zs : List ℕ}
    → Sent copyin i ys
    → Sent copyin i zs
    → length ys ≡ length zs
    → ys ≡ zs
Sent-unique (no_bytes i) (no_bytes i') e = refl
Sent-unique (no_bytes i) (sends i' z zs h hs) e = absurd (omega arith)
Sent-unique (sends i y ys g gs) (no_bytes i') e = absurd (omega arith)
Sent-unique (sends i y ys g gs) (sends i' z zs h hs) e =
    ap₂ (λ u us. u ∷ us) (some_injective (sym g ∙ h)) (Sent-unique gs hs (omega arith))

append_assoc : (xs ys zs : List ℕ) → (xs ++ ys) ++ zs ≡ xs ++ (ys ++ zs)
append_assoc [] ys zs = refl
append_assoc (x ∷ xs) ys zs = ap (λ l. x ∷ l) (append_assoc xs ys zs)

read_pass-held :
    (copyout : ℕ → Bool) (killed : Bool) (n : ℕ) (pi : Pipe) (xs : List ℕ)
    → ((j : ℕ) → copyout j ≡ true)
    → IsQueue pi xs
    → let (r, pi') = read_pass copyout killed n pi in
      (rest : List ℕ) × (xs ≡ bytes_read r ++ rest) × IsQueue pi' rest
unfolding read_pass
read_pass-held copyout killed n pi xs fine q = elim (Bool-cases (is_empty pi && pi.writeopen)) [
  | inl idle ↦ rw idle (xs, quiet killed, q)
  | inr busy ↦
      let (rest, e, q', c, d) = read_copy_lem copyout n 0 pi xs fine q in rw busy (rest, e, q')
]
  where
    quiet : (k : Bool) → xs ≡ bytes_read (if k then read_refused else read_asleep) ++ xs
    quiet true = refl
    quiet false = refl

Step-IsFifo : {t u : Traffic} → Step t u → IsFifo t → IsFifo u
unfolding pipeclose
Step-IsFifo {t} (write copyin killed n i ys s e) inv =
    let (zs, w) = write_pass_lem copyin killed n i t.pipe inv.held inv.queue in
    let same : zs ≡ ys = Sent-unique w.sent s (let r = Ending-reached w.ending in omega arith) in
    record {
      held = inv.held ++ zs;
      queue = w.queue;
      order = ap₂ (λ l m. l ++ m) inv.order (sym same) ∙ append_assoc t.received inv.held zs;
    }
Step-IsFifo {t} (read copyout killed n fine) inv =
    let (rest, e, q) = read_pass-held copyout killed n t.pipe inv.held fine inv.queue in
    let (r, pi') = read_pass copyout killed n t.pipe in
    record {
      held = rest;
      queue = q;
      order =
          inv.order
          ∙ ap (λ l. t.received ++ l) e
          ∙ sym (append_assoc t.received (bytes_read r) rest);
    }
Step-IsFifo {t} (close true) inv = record {
  held = inv.held;
  queue = record {
    read = inv.queue.read;
    reads = inv.queue.reads;
    writes = inv.queue.writes;
    room = inv.queue.room;
    stored = inv.queue.stored;
  };
  order = inv.order;
}
Step-IsFifo {t} (close false) inv = record {
  held = inv.held;
  queue = record {
    read = inv.queue.read;
    reads = inv.queue.reads;
    writes = inv.queue.writes;
    room = inv.queue.room;
    stored = inv.queue.stored;
  };
  order = inv.order;
}

-- However writers and readers take turns, where no copyout fails, the readers receive the bytes that
-- were sent, each once and in the order of sending; those not yet received are in the pipe, at most
-- PIPESIZE of them.
pub Reach-IsFifo : (bytes : ℕ → ℕ) {t : Traffic} → Reach (fresh bytes) t → IsFifo t
Reach-IsFifo bytes start = record { held = []; queue = pipealloc-IsQueue bytes; order = refl }
Reach-IsFifo bytes (next r s) = Step-IsFifo s (Reach-IsFifo bytes r)
