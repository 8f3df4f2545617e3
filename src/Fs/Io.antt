-- ===== src/Fs/Io.antt =====
-- readi and writei of w3/kernel/fs.c. Offsets and counts are 32-bit words. `fails` tells the copies to and
-- from the caller: by the number of bytes done before, whether the copy fails, and then after how many
-- bytes.
use os_t.Prelude.{
  ℕ, zero, suc, ◌+◌, ◌-◌, ◌*◌, ◌/◌, ◌%◌, ◌&&◌, ◌||◌, Option, none, some, if◌then◌else◌, ◌==◌, ltb,
  leb, min,
}
use os_t.Prelude.Run.{Run, ok, out_of_fuel, ◌>>=◌}
use os_t.Fs.{Fs, set_block, Inode, bmap}
use os_t.Fs.Dinode.{iupdate}

-- BSIZE
abbrev pub bsize : ℕ
bsize = 1024

abbrev pub uint_range : ℕ
uint_range = 4294967296

-- The bytes of a memory with `m` of them from `at` on copied from `source`.
abbrev pub copied : (ℕ → ℕ) → ℕ → ℕ → (ℕ → ℕ) → ℕ → ℕ
copied mem at m source i = if leb at i && ltb i (at + m) then source (i - at) else mem i

-- What readi returns, `none` for -1, and leaves.
pub record Read : Type 0 where
  pub tot : Option ℕ
  pub dst : ℕ → ℕ
  pub ip : Inode
  pub fs : Fs

-- A round of readi behind bmap, with the rest of the loop behind `m` more bytes.
unfoldable pub read_round :
    (ℕ → Option ℕ)
    → ℕ
    → ℕ
    → ℕ
    → (ℕ → ℕ)
    → (ℕ → Inode → Fs → (ℕ → ℕ) → Run Read)
    → ℕ × Inode × Fs
    → Run Read
read_round fails tot n off dst rest (addr, ip, fs) =
    let m = min (n - tot) (bsize - off % bsize) in
    let bytes = λ (i : ℕ). fs.blocks addr (off % bsize + i) in
    if addr == 0
    then ok (record { tot = some tot; dst = dst; ip = ip; fs = fs })
    else elim (fails tot) [
      | some k ↦ ok (record { tot = none; dst = copied dst tot (min k m) bytes; ip = ip; fs = fs })
      | none ↦ rest m ip fs (copied dst tot m bytes)
    ]

-- The loop of readi. Every round copies a byte at least.
unfoldable pub read_loop : ℕ → (ℕ → Option ℕ) → ℕ → ℕ → ℕ → Inode → Fs → (ℕ → ℕ) → Run Read
read_loop zero fails tot n off ip fs dst =
    if ltb tot n then out_of_fuel else ok (record { tot = some tot; dst = dst; ip = ip; fs = fs })
read_loop (suc f) fails tot n off ip fs dst =
    let round =
      bmap (off / bsize) ip fs
      >>= read_round fails tot n off dst (λ m. read_loop f fails (tot + m) n (off + m)) in
    if ltb tot n then round else ok (record { tot = some tot; dst = dst; ip = ip; fs = fs })

unfoldable pub readi : (ℕ → Option ℕ) → ℕ → ℕ → Inode → Fs → (ℕ → ℕ) → Run Read
readi fails off n ip fs dst =
    let n' = if ltb ip.size ((off + n) % uint_range) then ip.size - off else n in
    if ltb ip.size off || ltb ((off + n) % uint_range) off
    then ok (record { tot = some 0; dst = dst; ip = ip; fs = fs })
    else read_loop n' fails 0 n' off ip fs dst

-- What the loop of writei leaves: the bytes that are done, and the offset behind them.
pub record Written : Type 0 where
  pub tot : ℕ
  pub off : ℕ
  pub ip : Inode
  pub fs : Fs

-- The block `addr` with a chunk of `m` bytes copied to its place.
abbrev pub with_chunk : ℕ → ℕ → ℕ → (ℕ → ℕ) → ℕ → Fs → Fs
with_chunk addr m tot src off fs =
    set_block addr (copied (fs.blocks addr) (off % bsize) m (λ i. src (tot + i))) fs

-- A round of writei behind bmap, with the rest of the loop behind `m` more bytes. The bytes of a copy that
-- fails are in the buffer of the block, which is not written to the log.
unfoldable pub write_round :
    (ℕ → Option ℕ)
    → ℕ
    → ℕ
    → ℕ
    → (ℕ → ℕ)
    → (ℕ → Inode → Fs → Run Written)
    → ℕ × Inode × Fs
    → Run Written
write_round fails tot n off src rest (addr, ip, fs) =
    let m = min (n - tot) (bsize - off % bsize) in
    if addr == 0 then ok (record { tot = tot; off = off; ip = ip; fs = fs }) else elim (fails tot) [
      | some k ↦
          ok (record {
            tot = tot;
            off = off;
            ip = ip;
            fs = with_chunk addr (min k m) tot src off fs;
          })
      | none ↦ rest m ip (with_chunk addr m tot src off fs)
    ]

-- The loop of writei, with the bytes `src` from where writei begins.
unfoldable pub write_loop : ℕ → (ℕ → Option ℕ) → ℕ → ℕ → ℕ → (ℕ → ℕ) → Inode → Fs → Run Written
write_loop zero fails tot n off src ip fs =
    if ltb tot n then out_of_fuel else ok (record { tot = tot; off = off; ip = ip; fs = fs })
write_loop (suc f) fails tot n off src ip fs =
    let round =
      bmap (off / bsize) ip fs
      >>= write_round fails tot n off src (λ m. write_loop f fails (tot + m) n (off + m) src) in
    if ltb tot n then round else ok (record { tot = tot; off = off; ip = ip; fs = fs })

-- The end of writei: the size, and the copy to the disk.
unfoldable pub grow_size : Written → Written
grow_size w =
    let ip = if ltb w.ip.size w.off then record w.ip { size = w.off } else w.ip in
    record w { ip = ip; fs = iupdate ip w.fs }

-- writei: `none` for -1.
unfoldable pub writei : (ℕ → Option ℕ) → ℕ → ℕ → (ℕ → ℕ) → Inode → Fs → Run (Option ℕ × Inode × Fs)
writei fails off n src ip fs =
    let body = write_loop n fails 0 n off src ip fs >>= λ w.
    ok (some w.tot, (grow_size w).ip, (grow_size w).fs) in
    if ltb ip.size off || ltb ((off + n) % uint_range) off
    then ok (none, ip, fs)
    else if ltb (268 * bsize) ((off + n) % uint_range)
    then ok (none, ip, fs)
    else body
