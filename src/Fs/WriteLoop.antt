-- ===== src/Fs/WriteLoop.antt =====
-- The loop of writei of w3/kernel/fs.c.
use os_t.Prelude.{
  ℕ, zero, suc, ◌+◌, ◌-◌, ◌/◌, ◌%◌, ◌≤◌, ◌<◌, ◌≡◌, ◌≢◌, refl, sym, ap, subst, ◌∙◌, ◌⊎◌, inl, inr,
  true, false, Option, some, ◌==◌, ltb, min, Bool-cases, Option-cases, arith,
}
use os_t.Prelude.Run.{Run, ok}
use os_t.Fs.{Superblock, Fs, Inode}
use os_t.Fs.Bitmap.{used}
use os_t.Fs.Map.{block_of, IsFile}
use os_t.Fs.Slot.{Mapped}
use os_t.Fs.Bmap.{bmap_lem}
use os_t.Fs.Io.{bsize, copied, Written, with_chunk, write_round, write_loop}
use os_t.Fs.Store.{is_nonzero}
use os_t.Fs.Bytes.{byte_at, copied_none, outside_copy, copied_mem, copied_join}
use os_t.Fs.Apart.{IsApart, Mapped-IsApart}
use os_t.Fs.Chunk.{behind-IsFile, behind-IsApart, behind_byte}

is_zero : (a : ℕ) → (a == 0) ≡ true → a ≡ 0
is_zero a h = ground arith

-- What a write of the bytes from `tot` to `n` of `src`, at `off` in the file, leaves: those that are done
-- are in the file, and outside the range it has the bytes that it had. Fewer are done only where every
-- block of the disk is in use, or a copy fails. A block that is apart from the file stays so.
pub record Writes (fails : ℕ → Option ℕ) (ip : Inode) (fs : Fs) (off tot n : ℕ) (src : ℕ → ℕ)
    (out : Written) : Type 0 where
  pub file : IsFile out.ip out.fs
  pub same_size : out.ip.size ≡ ip.size
  pub only_addrs : out.ip ≡ record ip { addrs = out.ip.addrs }
  pub apart : (m : ℕ) → IsApart m ip fs → IsApart m out.ip out.fs
  pub same_sb : out.fs.sb ≡ fs.sb
  pub from : tot ≤ out.tot
  pub most : out.tot ≤ n
  pub place : out.off ≡ off + (out.tot - tot)
  pub bytes :
      (o : ℕ)
      → o < 274432
      → (o < off + (out.tot - tot)) ⊎ (off + (n - tot) ≤ o)
      → byte_at out.ip out.fs o ≡ copied (byte_at ip fs) off (out.tot - tot) (λ i. src (tot + i)) o
  pub short :
      out.tot < n
      → ((c : ℕ) → c < fs.sb.size → used out.fs c ≡ true) ⊎ ((k : ℕ) × (fails out.tot ≡ some k))

abbrev pub Result : (ℕ → Option ℕ) → Inode → Fs → ℕ → ℕ → ℕ → (ℕ → ℕ) → Run Written → Type 0
Result fails ip fs off tot n src r =
    (out : Written) × (r ≡ ok out) × Writes fails ip fs off tot n src out

same_part :
    (off m tot t n o : ℕ)
    → tot + m ≤ n
    → (o < off + (t - tot)) ⊎ (off + (n - tot) ≤ o)
    → tot + m ≤ t
    → (o < off + m + (t - (tot + m))) ⊎ (off + m + (n - (tot + m)) ≤ o)
same_part off m tot t n o le (inl below) a = inl (omega arith)
same_part off m tot t n o le (inr above) a = inr (omega arith)

-- Bytes that are copied behind others, from one source.
joined :
    (mem : ℕ → ℕ) (off m tot t : ℕ) (src : ℕ → ℕ) (o : ℕ)
    → tot + m ≤ t
    → copied
        (copied mem off m (λ i. src (tot + i)))
        (off + m)
        (t - (tot + m))
        (λ i. src (tot + m + i))
        o
      ≡ copied mem off (t - tot) (λ i. src (tot + i)) o
joined mem off m tot t src o le =
    let whole : t - tot ≡ off + (t - tot) - off = omega arith in
    let rest : t - (tot + m) ≡ off + (t - tot) - (off + m) = omega arith in
    ap (λ k. copied (copied mem off m (λ i. src (tot + i))) (off + m) k (λ i. src (tot + m + i)) o)
      rest
    ∙ copied_join mem off m (off + (t - tot)) (λ i. src (tot + i)) (λ i. src (tot + m + i))
        (λ i. src (tot + i)) o (omega arith) (λ j lt. refl) (λ j lt. ap src (omega arith))
    ∙ ap (λ k. copied mem off k (λ i. src (tot + i)) o) (sym whole)

module _ (fails : ℕ → Option ℕ) (ip : Inode) (fs : Fs) (off tot n : ℕ) (src : ℕ → ℕ)
    (file : IsFile ip fs) where
  nothing :
      tot ≡ n → Writes fails ip fs off tot n src (record { tot = tot; off = off; ip = ip; fs = fs })
  nothing e = record {
    file = file;
    same_size = refl;
    only_addrs = refl;
    apart = λ m a. a;
    same_sb = refl;
    from = omega arith;
    most = omega arith;
    place = omega arith;
    bytes = λ o lt out. sym (copied_none (byte_at ip fs) off tot (λ i. src (tot + i)) o);
    short = λ lt. absurd (omega arith);
  }

  disk_full :
      (ip1 : Inode) (fs1 : Fs)
      → Mapped (off / 1024) ip fs (0, ip1, fs1)
      → tot ≤ n
      → Writes fails ip fs off tot n src (record { tot = tot; off = off; ip = ip1; fs = fs1 })
  unfolding byte_at
  disk_full ip1 fs1 m le = record {
    file = m.file;
    same_size = m.same_size;
    only_addrs = m.only_addrs;
    apart = λ c. Mapped-IsApart (off / 1024) c ip fs (0, ip1, fs1) m;
    same_sb = m.same_sb;
    from = omega arith;
    most = le;
    place = omega arith;
    bytes = λ o lt out.
        m.same (o / 1024) (o % 1024) (omega arith)
        ∙ sym (copied_none (byte_at ip fs) off tot (λ i. src (tot + i)) o);
    short = λ lt. inl (m.full refl);
  }

  module _ (ip1 : Inode) (fs1 : Fs)
      (mapped : Mapped (off / 1024) ip fs (block_of ip1 fs1 (off / 1024), ip1, fs1)) (lt : tot < n)
      (fits : off + (n - tot) ≤ 274432) (there : block_of ip1 fs1 (off / 1024) ≢ 0) where
    -- A copy that fails after `m` bytes of its chunk.
    copy_failed :
        (m k : ℕ)
        → off % 1024 + m ≤ 1024
        → tot + m ≤ n
        → fails tot ≡ some k
        → Writes fails ip fs off tot n src (record {
          tot = tot;
          off = off;
          ip = ip1;
          fs = with_chunk (block_of ip1 fs1 (off / 1024)) m tot src off fs1;
        })
    copy_failed m k inside le e = record {
      file = behind-IsFile ip fs off m tot src ip1 fs1 mapped (omega arith) there inside;
      same_size = mapped.same_size;
      only_addrs = mapped.only_addrs;
      apart = λ c. behind-IsApart ip fs off m tot src ip1 fs1 mapped (omega arith) there inside c;
      same_sb = mapped.same_sb;
      from = omega arith;
      most = omega arith;
      place = omega arith;
      bytes = λ o small out.
          behind_byte ip fs off m tot src ip1 fs1 mapped (omega arith) there inside o small
          ∙ outside_copy (byte_at ip fs) off m (λ i. src (tot + i)) o (ground (arith, out))
          ∙ sym (copied_none (byte_at ip fs) off tot (λ i. src (tot + i)) o);
      short = λ less. inr (k, e);
    }

    chunk_and_rest :
        (m : ℕ) (last : Written)
        → off % 1024 + m ≤ 1024
        → tot + m ≤ n
        → Writes fails ip1
            (with_chunk (block_of ip1 fs1 (off / 1024)) m tot src off fs1)
            (off + m)
            (tot + m)
            n
            src
            last
        → Writes fails ip fs off tot n src last
    chunk_and_rest m last inside le r = record {
      file = r.file;
      same_size = r.same_size ∙ mapped.same_size;
      only_addrs =
          r.only_addrs ∙ ap (λ (x : Inode). record x { addrs = last.ip.addrs }) mapped.only_addrs;
      apart = λ c a.
          r.apart c
            (behind-IsApart ip fs off m tot src ip1 fs1 mapped (omega arith) there inside c a);
      same_sb = r.same_sb ∙ mapped.same_sb;
      from = (let a = r.from in omega arith);
      most = r.most;
      place = (let a = r.from in r.place ∙ omega arith);
      bytes = λ o small out.
          let a = r.from in
          r.bytes o small (same_part off m tot last.tot n o le out a)
          ∙ copied_mem (byte_at ip1 (with_chunk (block_of ip1 fs1 (off / 1024)) m tot src off fs1))
              (copied (byte_at ip fs) off m (λ i. src (tot + i))) (off + m) (last.tot - (tot + m))
              (λ i. src (tot + m + i)) o
              (behind_byte ip fs off m tot src ip1 fs1 mapped (omega arith) there inside o small)
          ∙ joined (byte_at ip fs) off m tot last.tot src o a;
      short = λ less. elim (r.short less) [
        | inl full ↦
            inl (λ c below.
              full c (subst (λ (z : Superblock). c < z.size) (sym mapped.same_sb) below))
        | inr failed ↦ inr failed
      ];
    }

write_round-Writes :
    (fails : ℕ → Option ℕ) (ip : Inode) (fs : Fs) (off tot n : ℕ) (src : ℕ → ℕ)
    (file : IsFile ip fs) (rest : ℕ → Inode → Fs → Run Written) (ip1 : Inode) (fs1 : Fs)
    → tot < n
    → off + (n - tot) ≤ 274432
    → Mapped (off / 1024) ip fs (block_of ip1 fs1 (off / 1024), ip1, fs1)
    → ((m : ℕ) (fs2 : Fs)
        → 0 < m
        → tot + m ≤ n
        → IsFile ip1 fs2
        → Result fails ip1 fs2 (off + m) (tot + m) n src (rest m ip1 fs2))
    → Result fails ip fs off tot n src
        (write_round fails tot n off src rest (block_of ip1 fs1 (off / 1024), ip1, fs1))
unfolding write_round
write_round-Writes fails ip fs off tot n src file rest ip1 fs1 lt fits mapped step =
    elim (Bool-cases (block_of ip1 fs1 (off / 1024) == 0)) [
      | inl full ↦
          let z : block_of ip1 fs1 (off / 1024) ≡ 0 =
            is_zero (block_of ip1 fs1 (off / 1024)) full in
          (
            record { tot = tot; off = off; ip = ip1; fs = fs1 },
            rw full refl,
            disk_full fails ip fs off tot n src file ip1 fs1
                (subst (λ a. Mapped (off / 1024) ip fs (a, ip1, fs1)) z mapped) (omega arith),
          )
      | inr some_there ↦
          let nz : block_of ip1 fs1 (off / 1024) ≢ 0 =
            is_nonzero (block_of ip1 fs1 (off / 1024)) some_there in
          let m = min (n - tot) (bsize - off % bsize) in
          elim (Option-cases (fails tot)) [
            | inr (k, e) ↦ (
              record {
                tot = tot;
                off = off;
                ip = ip1;
                fs = with_chunk (block_of ip1 fs1 (off / 1024)) (min k m) tot src off fs1;
              },
              rw (some_there, e) refl,
              copy_failed fails ip fs off tot n src file ip1 fs1 mapped lt fits nz (min k m) k
                  (omega arith) (omega arith) e,
            )
            | inl e ↦
                let file' =
                  behind-IsFile ip fs off m tot src ip1 fs1 mapped (omega arith) nz (omega arith) in
                let (last, runs, r) =
                  step m (with_chunk (block_of ip1 fs1 (off / 1024)) m tot src off fs1)
                    (omega arith) (omega arith) file' in
                (
                  last,
                  rw (some_there, e) runs,
                  chunk_and_rest fails ip fs off tot n src file ip1 fs1 mapped lt fits nz m last
                      (omega arith) (omega arith) r,
                )
          ]
    ]

pub write_loop-Writes :
    (f : ℕ) (fails : ℕ → Option ℕ) (tot n off : ℕ) (src : ℕ → ℕ) (ip : Inode) (fs : Fs)
    → IsFile ip fs
    → tot ≤ n
    → n - tot ≤ f
    → off + (n - tot) ≤ 274432
    → Result fails ip fs off tot n src (write_loop f fails tot n off src ip fs)
unfolding write_loop
write_loop-Writes zero fails tot n off src ip fs file le enough fits =
    let over : ltb tot n ≡ false = ground arith in
    (_, rw over refl, nothing fails ip fs off tot n src file (omega arith))
write_loop-Writes (suc f) fails tot n off src ip fs file le enough fits =
    elim (Bool-cases (ltb tot n)) [
      | inr over ↦ (_, rw over refl, nothing fails ip fs off tot n src file (ground arith))
      | inl more ↦
          let lt : tot < n = ground arith in
          let ((addr, ip1, fs1), runs, mapped) = bmap_lem (off / 1024) ip fs file (omega arith) in
          let rest = λ (m : ℕ). write_loop f fails (tot + m) n (off + m) src in
          rw (more, runs)
            (subst
              (λ a.
                Result fails ip fs off tot n src
                  (write_round fails tot n off src rest (a, ip1, fs1)))
              mapped.here
              (write_round-Writes fails ip fs off tot n src file rest ip1 fs1 lt fits
                (subst (λ a. Mapped (off / 1024) ip fs (a, ip1, fs1)) (sym mapped.here) mapped)
                (λ m fs2 pos le' file2.
                  write_loop-Writes f fails (tot + m) n (off + m) src ip1 fs2 file2 le'
                    (omega arith) (omega arith))))
    ]
