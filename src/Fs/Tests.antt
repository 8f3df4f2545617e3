-- ===== src/Fs/Tests.antt =====
-- A small disk of four blocks, whose bitmap is block 1, and the witnesses.
use os_t.Prelude.{
  ℕ, ◌≡◌, ◌≢◌, refl, sym, subst, ◌∙◌, true, Option, none, some, if◌then◌else◌, ◌==◌, arith,
}
use os_t.Prelude.Run.{Run, ok, panic, out_of_fuel}
use os_t.Fs.{
  bblock, Fs, test_bit, set_bit, in_use, mark, bzero, find_clear, balloc_loop, balloc, Inode,
  bmap_slot, bmap,
}
use os_t.Fs.Bitmap.{used}
use os_t.Fs.Map.{block_of, IsDisk, IsData, IsFile}
use os_t.Fs.Slot.{Mapped}
use os_t.Fs.Bmap.{bmap_lem}
use os_t.Fs.Dinode.{iupdate, read_inode, IsPacked, SameInode, read_inode-iupdate}
use os_t.Fs.Io.{Read, read_round, read_loop, readi, write_round, write_loop, grow_size, writei}
use os_t.Fs.ReadLoop.{Reads}
use os_t.Fs.Bytes.{byte_at}
use os_t.Fs.Apart.{IsApart}
use os_t.Fs.Read.{readi-Reads}
use os_t.Fs.Write.{WriteI, writei-WriteI}

-- Blocks 0 and 1 are in use, 2 and 3 are free.
abbrev disk : Fs
disk = record {
  sb = record { size = 4; inodestart = 3; bmapstart = 1 };
  blocks = λ n i. if n == 1 then (if i == 0 then 3 else 0) else 7;
}

abbrev empty_file : Inode
empty_file = record {
  inum = 1;
  type = 2;
  major = 0;
  minor = 0;
  nlink = 1;
  size = 0;
  addrs = λ i. 0;
}

test_balloc : (balloc disk).0 ≡ 2
unfolding balloc balloc_loop find_clear in_use test_bit bzero
test_balloc = refl

disk-IsDisk : IsDisk disk
unfolding in_use test_bit
disk-IsDisk = record {
  roomy = omega arith;
  boot = refl;
  meta_in = λ c lc. omega arith;
  meta =
      λ c lc. let e : 1 ≡ bblock c disk.sb = omega arith in subst (λ x. used disk x ≡ true) e refl;
}

no_block : (k : ℕ) → block_of empty_file disk k ≡ 0
no_block k = ground arith

empty-IsFile : IsFile empty_file disk
empty-IsFile = record {
  disk = disk-IsDisk;
  inside = λ k lk nz. absurd (nz (no_block k));
  distinct = λ k l lk ll ne nz. absurd (nz (no_block k));
}

bmap_lem_example :
    (out : ℕ × Inode × Fs) × (bmap 13 empty_file disk ≡ ok out) × Mapped 13 empty_file disk out
bmap_lem_example = bmap_lem 13 empty_file disk empty-IsFile (omega arith)

-- A file with block 2, on a disk where blocks 0 to 3 are in use, 3 for inodes, and block 4 is free.
abbrev disk3 : Fs
disk3 = record {
  sb = record { size = 5; inodestart = 3; bmapstart = 1 };
  blocks = λ n i. if n == 1 then (if i == 0 then 15 else 0) else i;
}

abbrev short_file : Inode
short_file = record {
  inum = 1;
  type = 2;
  major = 0;
  minor = 0;
  nlink = 1;
  size = 10;
  addrs = λ i. if i == 0 then 2 else 0;
}

disk3-IsDisk : IsDisk disk3
unfolding in_use test_bit
disk3-IsDisk = record {
  roomy = omega arith;
  boot = refl;
  meta_in = λ c lc. omega arith;
  meta = λ c lc.
      let e : 1 ≡ bblock c disk3.sb = omega arith in subst (λ x. used disk3 x ≡ true) e refl;
}

block_2 : (k : ℕ) → block_of short_file disk3 k ≡ (if k == 0 then 2 else 0)
block_2 k = ground arith

block_2-IsData : IsData disk3 2
unfolding in_use test_bit
block_2-IsData = record {
  below = omega arith;
  taken = refl;
  no_meta = λ c lc e. absurd (omega arith);
}

first_only : (k : ℕ) → block_of short_file disk3 k ≢ 0 → k ≡ 0
first_only k nz = let e = block_2 k in ground arith

short-IsFile : IsFile short_file disk3
short-IsFile = record {
  disk = disk3-IsDisk;
  inside = λ k lk nz.
      subst (λ l. IsData disk3 (block_of short_file disk3 l)) (sym (first_only k nz))
        block_2-IsData;
  distinct = λ k l lk ll ne nz e. ne (first_only k nz ∙ sym (first_only l (λ z. nz (e ∙ z))));
}

abbrev bytes_of : Run Read → Option ℕ × ℕ
bytes_of panic = (none, 0)
bytes_of out_of_fuel = (none, 0)
bytes_of (ok out) = (out.tot, out.dst 1)

-- Of five bytes from the eighth on there are two.
last_bytes : bytes_of (readi (λ t. none) 8 5 short_file disk3 (λ i. 0)) ≡ (some 2, 9)
unfolding readi read_loop read_round bmap bmap_slot
last_bytes = refl

short-IsPacked : IsPacked short_file
short-IsPacked = record {
  type_fits = omega arith;
  major_fits = omega arith;
  minor_fits = omega arith;
  nlink_fits = omega arith;
  size_fits = omega arith;
  addrs_fit = λ i lt. ground arith;
}

read_inode-iupdate_example :
    SameInode (read_inode 1 (iupdate short_file disk3)) short_file
    × ((i : ℕ) → i ≢ 1 → SameInode (read_inode i (iupdate short_file disk3)) (read_inode i disk3))
    × ((n : ℕ) → n ≢ 3 → (iupdate short_file disk3).blocks n ≡ disk3.blocks n)
read_inode-iupdate_example = read_inode-iupdate short_file disk3 short-IsPacked

readi-Reads_example :
    (out : Read) × (readi (λ t. none) 8 5 short_file disk3 (λ i. 0) ≡ ok out)
    × Reads (λ t. none) short_file disk3 8 0 2 (λ i. 0) out
readi-Reads_example =
    readi-Reads (λ t. none) 8 5 short_file disk3 (λ i. 0) short-IsFile (omega arith) (omega arith)
      (omega arith)

inode-IsApart : IsApart 3 short_file disk3
unfolding in_use test_bit
inode-IsApart = record {
  is_data = record { below = omega arith; taken = refl; no_meta = λ c lc e. absurd (omega arith) };
  outside = λ k lk e. let b = block_2 k in absurd (ground arith);
}

abbrev byte_of : Run (Option ℕ × Inode × Fs) → ℕ → Option ℕ × ℕ
byte_of panic o = (none, 0)
byte_of out_of_fuel o = (none, 0)
byte_of (ok (done, ip, fs)) o = (done, byte_at ip fs o)

-- Of bytes from the ninth on, those from 1024 on go to a new block; byte 1088 is one of them.
new_block : byte_of (writei (λ t. none) 9 2000 (λ i. 1) short_file disk3) 1088 ≡ (some 2000, 1)
unfolding writei write_loop write_round bmap bmap_slot balloc balloc_loop find_clear in_use test_bit
    mark set_bit bzero grow_size iupdate byte_at
new_block = refl

writei-WriteI_example :
    WriteI
      (λ t. none)
      9
      2000
      (λ i. 1)
      short_file
      disk3
      (writei (λ t. none) 9 2000 (λ i. 1) short_file disk3)
writei-WriteI_example =
    writei-WriteI (λ t. none) 9 2000 (λ i. 1) short_file disk3 short-IsFile inode-IsApart
      short-IsPacked (omega arith) (omega arith) (omega arith)
