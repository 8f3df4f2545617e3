-- ===== src/Str/Copy.antt =====
-- What memset, memmove, strncpy and safestrcpy of w3/kernel/string.c leave in memory.
use os_t.Prelude.{
  ℕ, zero, suc, ◌+◌, ◌-◌, ◌%◌, ◌≤◌, ◌<◌, ◌≡◌, refl, ◌⊎◌, inl, inr, ◌∙◌, Bool, ◌&&◌, ◌||◌, arith,
  if◌then◌else◌, ltb, leb, ◌==◌, Bool-cases,
}
use os_t.Str.{
  Mem, store, fill, memset, copy_down, copy_up, memmove, zero_fill, strncpy, safestrcpy_loop,
  safestrcpy,
}

-- `a` lies in the `n` bytes from `lo` on.
abbrev pub within : ℕ → ℕ → ℕ → Bool
within lo n a = leb lo a && ltb a (lo + n)

fill_lem :
    (k i dst c : ℕ) (m : Mem) (a : ℕ)
    → fill k i dst c m a ≡ (if within (dst + i) k a then c % 256 else m a)
unfolding fill
fill_lem zero i dst c m a = ground arith
fill_lem (suc k) i dst c m a =
    ground (arith, fill_lem k (i + 1) dst c (store m (dst + i) (c % 256)) a)

-- memset writes the low byte of `c` to exactly the `n` bytes from `dst` on.
pub memset_lem :
    (dst c n : ℕ) (m : Mem) (a : ℕ) → memset dst c n m a ≡ (if within dst n a then c % 256 else m a)
unfolding memset
memset_lem dst c n m a = ground (arith, fill_lem n 0 dst c m a)

copy_up_lem :
    (n d s : ℕ) (m : Mem) (a : ℕ)
    → (d ≤ s) ⊎ (s + n ≤ d)
    → copy_up n d s m a ≡ (if within d n a then m (s + (a - d)) else m a)
unfolding copy_up
copy_up_lem zero d s m a h = ground arith
copy_up_lem (suc n) d s m a h = ground (arith, copy_up_lem n (d + 1) (s + 1) (store m d (m s)) a)

copy_down_lem :
    (n d s : ℕ) (m : Mem) (a : ℕ)
    → s ≤ d
    → copy_down n (d + n) (s + n) m a ≡ (if within d n a then m (s + (a - d)) else m a)
unfolding copy_down
copy_down_lem zero d s m a h = ground arith
copy_down_lem (suc n) d s m a h =
    let d' : d + suc n - 1 ≡ d + n = omega arith in
    let s' : s + suc n - 1 ≡ s + n = omega arith in
    rw (d', s') (ground (arith, copy_down_lem n d s (store m (d + n) (m (s + n))) a))

-- memmove copies the `n` bytes as they were before the call, also where the ranges overlap, and
-- changes nothing else.
pub memmove_lem :
    (dst src n : ℕ) (m : Mem) (a : ℕ)
    → memmove dst src n m a ≡ (if within dst n a then m (src + (a - dst)) else m a)
unfolding memmove
memmove_lem dst src n m a = ground (arith, copy_up_lem n dst src m a, copy_down_lem n dst src m a)

-- The bytes before the first NUL, among the `n` from `t` on.
unfoldable pub strnlen : ℕ → ℕ → Mem → ℕ
strnlen t zero m = 0
strnlen t (suc n) m = if m t == 0 then 0 else suc (strnlen (t + 1) n m)

-- Two ranges of `n` bytes that do not meet.
abbrev pub Apart : ℕ → ℕ → ℕ → Type 0
Apart s t n = (s + n ≤ t) ⊎ (t + n ≤ s)

strnlen-store :
    (t n s v : ℕ) (m : Mem) → (s < t) ⊎ (t + n ≤ s) → strnlen t n (store m s v) ≡ strnlen t n m
unfolding strnlen
strnlen-store t zero s v m h = refl
strnlen-store t (suc n) s v m h = ground (arith, strnlen-store (t + 1) n s v m)

pub strnlen-le : (t n : ℕ) (m : Mem) → strnlen t n m ≤ n
unfolding strnlen
strnlen-le t zero m = omega arith
strnlen-le t (suc n) m = ground (arith, strnlen-le (t + 1) n m)

zero_fill_lem : (n s : ℕ) (m : Mem) (a : ℕ) → zero_fill n s m a ≡ (if within s n a then 0 else m a)
unfolding zero_fill
zero_fill_lem zero s m a = ground arith
zero_fill_lem (suc n) s m a = ground (arith, zero_fill_lem n (s + 1) (store m s 0) a)

-- strncpy copies the bytes before the NUL, writes NULs up to the `n`-th byte, and changes nothing
-- else, if the two buffers do not meet.
strncpy_lem :
    (s t n : ℕ) (m : Mem) (a : ℕ)
    → Apart s t n
    → strncpy s t n m a
      ≡ (if within s (strnlen t n m) a then m (t + (a - s)) else if within s n a then 0 else m a)
unfolding strncpy strnlen
strncpy_lem s t zero m a h = ground arith
strncpy_lem s t (suc n) m a h =
    let m' = store m s (m t) in
    ground (
      arith,
      zero_fill_lem n (s + 1) m' a,
      strncpy_lem (s + 1) (t + 1) n m' a,
      strnlen-store (t + 1) n s (m t) m,
      strnlen-le (t + 1) n m,
    )

safestrcpy_loop_end :
    (k s t : ℕ) (m : Mem)
    → Apart s t (suc k)
    → (safestrcpy_loop k s t m).0 ≡ (let l = strnlen t k m in if ltb l k then s + l + 1 else s + l)
unfolding safestrcpy_loop strnlen
safestrcpy_loop_end zero s t m h = ground arith
safestrcpy_loop_end (suc k) s t m h = ground (
  arith,
  safestrcpy_loop_end k (s + 1) (t + 1) (store m s (m t)),
  strnlen-store (t + 1) k s (m t) m,
)

-- One copied byte in front of a prefix of `l` bytes copied one place further on.
copied-suc :
    (k l s t : ℕ) (m : Mem) (a : ℕ)
    → Apart s t (suc (suc k))
    → l ≤ k
    → (if within (s + 1) l a
        then store m s (m t) (t + 1 + (a - (s + 1)))
        else if ltb l k && a == s + 1 + l
        then 0
        else store m s (m t) a)
      ≡ (if within s (suc l) a
          then m (t + (a - s))
          else if ltb (suc l) (suc k) && a == s + suc l
          then 0
          else m a)
copied-suc k l s t m a h le = ground arith

safestrcpy_loop_bytes :
    (k s t : ℕ) (m : Mem) (a : ℕ)
    → Apart s t (suc k)
    → (safestrcpy_loop k s t m).1 a ≡ (
        let l = strnlen t k m in
        if within s l a then m (t + (a - s)) else if ltb l k && a == s + l then 0 else m a)
unfolding safestrcpy_loop strnlen
safestrcpy_loop_bytes zero s t m a h = ground arith
safestrcpy_loop_bytes (suc k) s t m a h = elim (Bool-cases (m t == 0)) [
  | inl e ↦ rw e (ground arith)
  | inr e ↦ rw e (
      safestrcpy_loop_bytes k (s + 1) (t + 1) (store m s (m t)) a (omega arith)
      ∙ rw (strnlen-store (t + 1) k s (m t) m (omega arith))
          (copied-suc k (strnlen (t + 1) k m) s t m a h (strnlen-le (t + 1) k m)))
]

-- safestrcpy copies the bytes before the NUL, at most `k` of them, ends them by a NUL, writes at
-- most one more NUL inside the buffer of `k + 1` bytes, and changes nothing else, if the two
-- buffers do not meet.
pub safestrcpy_lem :
    (s t k : ℕ) (m : Mem) (a : ℕ)
    → Apart s t (suc k)
    → safestrcpy s t (suc k) m a ≡ (
        let l = strnlen t k m in
        if within s l a
        then m (t + (a - s))
        else if (a == s + l) || (ltb l k && a == s + l + 1)
        then 0
        else m a)
unfolding safestrcpy
safestrcpy_lem s t k m a h =
    ground (arith, safestrcpy_loop_end k s t m h, safestrcpy_loop_bytes k s t m a h)
