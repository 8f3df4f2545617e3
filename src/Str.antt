-- ===== src/Str.antt =====
-- w3/kernel/string.c over a byte memory. Pointers are addresses, and a function that writes returns
-- the new memory; the pointer that the C function returns is its first argument.
pub mod Copy
pub mod Compare
pub mod Words
mod Tests
use os_t.Prelude.{
  ℕ, zero, suc, ◌+◌, ◌-◌, ◌%◌, Bool, ◌&&◌, Option, none, some, if◌then◌else◌, ltb, ◌==◌,
}
use os_t.Prelude.Int.{ℤ, pos, sub_ℕ}

-- The bytes at every address.
abbrev pub Mem : Type 0
Mem = ℕ → ℕ

-- `*a = v`
abbrev pub store : Mem → ℕ → ℕ → Mem
store m a v b = if a == b then v else m b

-- the rounds left of memset's loop, from index `i` on
fill : ℕ → ℕ → ℕ → ℕ → Mem → Mem
fill zero i dst c m = m
fill (suc k) i dst c m = fill k (i + 1) dst c (store m (dst + i) (c % 256))

unfoldable pub memset : ℕ → ℕ → ℕ → Mem → Mem
unfolding fill
memset dst c n m = fill n 0 dst c m

pub memcmp : ℕ → ℕ → ℕ → Mem → ℤ
memcmp s1 s2 zero m = pos 0
memcmp s1 s2 (suc n) m =
    let rest = memcmp (s1 + 1) (s2 + 1) n m in if m s1 == m s2 then rest else sub_ℕ (m s1) (m s2)

-- `while(n-- > 0) *--d = *--s;`
copy_down : ℕ → ℕ → ℕ → Mem → Mem
copy_down zero d s m = m
copy_down (suc n) d s m = copy_down n (d - 1) (s - 1) (store m (d - 1) (m (s - 1)))

-- `while(n-- > 0) *d++ = *s++;`
copy_up : ℕ → ℕ → ℕ → Mem → Mem
copy_up zero d s m = m
copy_up (suc n) d s m = copy_up n (d + 1) (s + 1) (store m d (m s))

pub memmove : ℕ → ℕ → ℕ → Mem → Mem
memmove dst src n m =
    if n == 0
    then m
    else if ltb src dst && ltb dst (src + n)
    then copy_down n (dst + n) (src + n) m
    else copy_up n dst src m

pub memcpy : ℕ → ℕ → ℕ → Mem → Mem
memcpy dst src n m = memmove dst src n m

pub strncmp : ℕ → ℕ → ℕ → Mem → ℤ
strncmp p q zero m = pos 0
strncmp p q (suc n) m =
    let rest = strncmp (p + 1) (q + 1) n m in
    if m p == 0 then sub_ℕ (m p) (m q) else if m p == m q then rest else sub_ℕ (m p) (m q)

-- `while(n-- > 0) *s++ = 0;`
zero_fill : ℕ → ℕ → Mem → Mem
zero_fill zero s m = m
zero_fill (suc n) s m = zero_fill n (s + 1) (store m s 0)

-- Both loops of strncpy. An `n` below zero acts as zero.
pub strncpy : ℕ → ℕ → ℕ → Mem → Mem
strncpy s t zero m = m
strncpy s t (suc n) m =
    let m' = store m s (m t) in
    let rest = strncpy (s + 1) (t + 1) n m' in if m t == 0 then zero_fill n (s + 1) m' else rest

-- `while(--n > 0 && (*s++ = *t++) != 0);` with `k` for the decremented `n`: the pointer where it
-- stops, and the memory.
safestrcpy_loop : ℕ → ℕ → ℕ → Mem → ℕ × Mem
safestrcpy_loop zero s t m = (s, m)
safestrcpy_loop (suc k) s t m =
    let m' = store m s (m t) in
    let rest = safestrcpy_loop k (s + 1) (t + 1) m' in if m t == 0 then (s + 1, m') else rest

pub safestrcpy : ℕ → ℕ → ℕ → Mem → Mem
safestrcpy s t zero m = m
safestrcpy s t (suc k) m = let (end, m') = safestrcpy_loop k s t m in store m' end 0

-- With fuel, since nothing bounds the string; `none` means that the fuel ran out.
strlen_loop : ℕ → ℕ → ℕ → Mem → Option ℕ
strlen_loop zero n s m = none
strlen_loop (suc f) n s m =
    let rest = strlen_loop f (n + 1) s m in if m (s + n) == 0 then some n else rest

unfoldable pub strlen : ℕ → ℕ → Mem → Option ℕ
unfolding strlen_loop
strlen f s m = strlen_loop f 0 s m
