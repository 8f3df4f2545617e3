-- ===== src/Fs.antt =====
-- w3/kernel/fs.c: the blocks of the file system and the contents of files. `blocks` is what bread
-- returns for each block number, a write to a buffer with its log_write and brelse changes it there,
-- and locks and transactions are left to their parts. Block numbers do not overflow a uint. A bit or a
-- word of a block stands at its place in the block's bytes.
pub mod Bits
pub mod Words
pub mod Bitmap
pub mod Alloc
pub mod Map
pub mod Slot
pub mod Entry
pub mod Bmap
pub mod Dinode
pub mod Io
pub mod Store
pub mod Apart
pub mod Bytes
pub mod ReadLoop
pub mod Read
pub mod Chunk
pub mod WriteLoop
pub mod Write
mod Tests
use os_t.Prelude.{
  ℕ, zero, suc, ◌+◌, ◌-◌, ◌*◌, ◌/◌, ◌%◌, Bool, true, false, not, ◌&&◌, ◌||◌, Option, none, some,
  if◌then◌else◌, ◌==◌, ltb, leb, update,
}
use os_t.Prelude.Run.{Run, ok, panic, ◌>>=◌}

-- BPB, the bits of a block
abbrev pub bpb : ℕ
bpb = 8192

abbrev pub ndirect : ℕ
ndirect = 12

abbrev pub nindirect : ℕ
nindirect = 256

-- What fs.c uses of `struct superblock`.
pub record Superblock : Type 0 where
  pub size : ℕ
  pub inodestart : ℕ
  pub bmapstart : ℕ

pub record Fs : Type 0 where
  pub sb : Superblock
  pub blocks : ℕ → ℕ → ℕ

-- BBLOCK
abbrev pub bblock : ℕ → Superblock → ℕ
bblock b sb = b / bpb + sb.bmapstart

abbrev pub set_block : ℕ → (ℕ → ℕ) → Fs → Fs
set_block n v fs = record fs { blocks = update fs.blocks n v }

-- `x & (1 << k)`
pub test_bit : ℕ → ℕ → Bool
test_bit x zero = x % 2 == 1
test_bit x (suc k) = test_bit (x / 2) k

-- `x | (1 << k)`
pub set_bit : ℕ → ℕ → ℕ
set_bit x zero = x - x % 2 + 1
set_bit x (suc k) = x % 2 + 2 * set_bit (x / 2) k

-- `x & ~(1 << k)`
pub clear_bit : ℕ → ℕ → ℕ
clear_bit x zero = x - x % 2
clear_bit x (suc k) = x % 2 + 2 * clear_bit (x / 2) k

-- The bit `bi` of a block of the bitmap.
pub in_use : (ℕ → ℕ) → ℕ → Bool
in_use bytes bi = test_bit (bytes (bi / 8)) (bi % 8)

pub mark : (ℕ → ℕ) → ℕ → ℕ → ℕ
mark bytes bi = update bytes (bi / 8) (set_bit (bytes (bi / 8)) (bi % 8))

pub unmark : (ℕ → ℕ) → ℕ → ℕ → ℕ
unmark bytes bi = update bytes (bi / 8) (clear_bit (bytes (bi / 8)) (bi % 8))

pub bzero : ℕ → Fs → Fs
bzero bno fs = set_block bno (λ i. 0) fs

-- The inner loop of balloc over the `n` bits from `bi` on.
pub find_clear : ℕ → ℕ → ℕ → ℕ → (ℕ → ℕ) → Option ℕ
find_clear zero bi b size bytes = none
find_clear (suc n) bi b size bytes =
    let rest = find_clear n (bi + 1) b size bytes in
    if ltb (b + bi) size then if in_use bytes bi then rest else some bi else none

-- Its outer loop over the `n` blocks of the bitmap from that of block `b` on.
pub balloc_loop : ℕ → ℕ → Fs → ℕ × Fs
balloc_loop zero b fs = (0, fs)
balloc_loop (suc n) b fs =
    let bn = bblock b fs.sb in
    let bytes = fs.blocks bn in
    if ltb b fs.sb.size
    then elim (find_clear bpb 0 b fs.sb.size bytes) [
      | some bi ↦ (b + bi, bzero (b + bi) (set_block bn (mark bytes bi) fs))
      | none ↦ balloc_loop n (b + bpb) fs
    ]
    else (0, fs)

pub balloc : Fs → ℕ × Fs
balloc fs = balloc_loop (fs.sb.size / bpb + 1) 0 fs

pub bfree : ℕ → Fs → Run Fs
bfree b fs =
    let bn = bblock b fs.sb in
    let bi = b % bpb in
    if in_use (fs.blocks bn) bi then ok (set_block bn (unmark (fs.blocks bn) bi) fs) else panic

-- The word `j` of a block of uints, the low byte first.
pub load32 : (ℕ → ℕ) → ℕ → ℕ
load32 bytes j =
    bytes (4 * j)
    + 256 * bytes (4 * j + 1)
    + 65536 * bytes (4 * j + 2)
    + 16777216 * bytes (4 * j + 3)

pub store32 : (ℕ → ℕ) → ℕ → ℕ → ℕ → ℕ
store32 bytes j v i =
    if i == 4 * j
    then v % 256
    else if i == 4 * j + 1
    then v / 256 % 256
    else if i == 4 * j + 2
    then v / 65536 % 256
    else if i == 4 * j + 3
    then v / 16777216 % 256
    else bytes i

-- `struct inode`, less its device, its lock, and its references in the table.
pub record Inode : Type 0 where
  pub inum : ℕ
  pub type : ℕ
  pub major : ℕ
  pub minor : ℕ
  pub nlink : ℕ
  pub size : ℕ
  pub addrs : ℕ → ℕ

-- The part of bmap behind `addr`, the indirect block: its entry `j`.
pub bmap_entry : ℕ → ℕ → Inode → Fs → ℕ × Inode × Fs
bmap_entry addr j ip fs =
    let a = load32 (fs.blocks addr) j in
    let (new, fs1) = balloc fs in
    if a == 0
    then if new == 0
      then (0, ip, fs1)
      else (new, ip, set_block addr (store32 (fs1.blocks addr) j new) fs1)
    else (a, ip, fs)

-- bmap of a block that has its number in slot `i` of the inode: that number, or a new one.
pub bmap_slot : ℕ → Inode → Fs → ℕ × Inode × Fs
bmap_slot i ip fs =
    let (new, fs1) = balloc fs in
    if ip.addrs i == 0
    then if new == 0 then (0, ip, fs1) else (new, record ip { addrs = update ip.addrs i new }, fs1)
    else (ip.addrs i, ip, fs)

pub bmap : ℕ → Inode → Fs → Run (ℕ × Inode × Fs)
bmap bn ip fs =
    let (addr, ip1, fs1) = bmap_slot ndirect ip fs in
    if ltb bn ndirect
    then ok (bmap_slot bn ip fs)
    else if ltb (bn - ndirect) nindirect
    then if addr == 0 then ok (0, ip1, fs1) else ok (bmap_entry addr (bn - ndirect) ip1 fs1)
    else panic
