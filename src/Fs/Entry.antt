-- ===== src/Fs/Entry.antt =====
-- The entries of the indirect block of w3/kernel/fs.c, as bmap fills them.
use os_t.Prelude.{
  ℕ, ◌+◌, ◌-◌, ◌≤◌, ◌<◌, ◌≡◌, refl, sym, ap, ◌∙◌, ◌≢◌, inl, inr, false, if◌then◌else◌, ltb, ◌==◌,
  Bool-cases, update, update_ne, update_self, arith,
}
use os_t.Fs.{ndirect, nindirect, Fs, set_block, bzero, load32, store32, Inode}
use os_t.Fs.Words.{load32-store32_self, load32-store32_ne}
use os_t.Fs.Alloc.{Allocated, out_of_blocks, fresh}
use os_t.Fs.Map.{maxfile, block_of, IsFile, with_blocks, Grown, fresh-Grown}
use os_t.Fs.Slot.{Mapped, unchanged, no_room, grown-Mapped, kept_indirect, grown}

unfoldable pub entry_with : ℕ → ℕ → Inode → Fs → ℕ × Fs → ℕ × Inode × Fs
entry_with addr j ip fs r =
    if load32 (fs.blocks addr) j == 0
    then if r.0 == 0
      then (0, ip, r.1)
      else (r.0, ip, set_block addr (store32 (r.1.blocks addr) j (r.0)) r.1)
    else (load32 (fs.blocks addr) j, ip, fs)

entry_hole :
    (j : ℕ) (ip : Inode) (fs : Fs)
    → ip.addrs ndirect ≢ 0
    → j < nindirect
    → block_of ip fs (ndirect + j) ≡ load32 (fs.blocks (ip.addrs ndirect)) j
entry_hole j ip fs nz lt =
    let e : ndirect + j - ndirect ≡ j = omega arith in
    ground (arith, ap (load32 (fs.blocks (ip.addrs ndirect))) e)

entry_places :
    (j b : ℕ) (ip : Inode) (fs : Fs) (v : ℕ → ℕ → ℕ)
    → IsFile ip fs
    → ip.addrs ndirect ≢ 0
    → j < nindirect
    → Grown b fs v
    → (k : ℕ) → k ≤ maxfile
    → block_of ip
        (with_blocks fs (update v (ip.addrs ndirect) (store32 (v (ip.addrs ndirect)) j b)))
        k
      ≡ (if k == ndirect + j then b else block_of ip fs k)
entry_places j b ip fs v file nz lt g k lk =
    let kept = kept_indirect b ip fs v file nz g in
    let roomy = file.disk.roomy in
    let below = g.is_data.below in
    let self = load32-store32_self (v (ip.addrs ndirect)) j b (omega arith) in
    let other = load32-store32_ne (v (ip.addrs ndirect)) j b (k - ndirect) in
    let old : load32 (v (ip.addrs ndirect)) (k - ndirect)
        ≡ load32 (fs.blocks (ip.addrs ndirect)) (k - ndirect) =
      ap (λ x. load32 x (k - ndirect)) kept in
    let there : load32
          (update v (ip.addrs ndirect) (store32 (v (ip.addrs ndirect)) j b) (ip.addrs ndirect))
          (k - ndirect)
        ≡ load32 (store32 (v (ip.addrs ndirect)) j b) (k - ndirect) =
      ap (λ x. load32 x (k - ndirect))
        (update_self v (ip.addrs ndirect) (store32 (v (ip.addrs ndirect)) j b)) in
    elim (Bool-cases (k == ndirect + j)) [
      | inl y ↦
          let at_j : k - ndirect ≡ j = ground arith in
          let now : load32 (store32 (v (ip.addrs ndirect)) j b) (k - ndirect) ≡ b =
            ap (load32 (store32 (v (ip.addrs ndirect)) j b)) at_j ∙ self in
          rw y (ground (arith, there, now))
      | inr y ↦ elim (Bool-cases (ltb k ndirect)) [
        | inl h ↦ ground arith
        | inr h ↦
            let apart : k - ndirect ≢ j = λ e. absurd (ground arith) in
            rw y (ground (arith, there, other apart, old))
      ]
    ]

pub entry-Mapped :
    (j : ℕ) (ip : Inode) (fs : Fs) (r : ℕ × Fs)
    → IsFile ip fs
    → ip.addrs ndirect ≢ 0
    → j < nindirect
    → Allocated fs r
    → Mapped (ndirect + j) ip fs (entry_with (ip.addrs ndirect) j ip fs r)
unfolding entry_with bzero
entry-Mapped j ip fs r file nz lt alloc =
    elim (Bool-cases (load32 (fs.blocks (ip.addrs ndirect)) j == 0)) [
      | inr e ↦ rw e (
          unchanged (ndirect + j) (load32 (fs.blocks (ip.addrs ndirect)) j) ip fs file
            (entry_hole j ip fs nz lt) (λ z. absurd (ground arith)))
      | inl e ↦ rw e (go alloc (ground arith))
    ]
  where
    go :
        {q : ℕ × Fs}
        → Allocated fs q
        → load32 (fs.blocks (ip.addrs ndirect)) j ≡ 0
        → Mapped (ndirect + j) ip fs (
            if q.0 == 0 then (0, ip, q.1) else (
              q.0,
              ip,
              set_block (ip.addrs ndirect) (store32 (q.1.blocks (ip.addrs ndirect)) j (q.0)) q.1,
            ))
    go (out_of_blocks all) z = no_room (ndirect + j) ip fs file (entry_hole j ip fs nz lt ∙ z) all
    go (fresh b below f before) z =
        let g = fresh-Grown b fs file.disk below f in
        let bz : (b == 0) ≡ false = (let n' = g.nonzero in ground arith) in
        rw bz (
          grown-Mapped ip ip fs (grown b fs)
            (update (grown b fs) (ip.addrs ndirect) (store32 (grown b fs (ip.addrs ndirect)) j b))
            (ndirect + j) b file g (omega arith) (entry_hole j ip fs nz lt ∙ z)
            (entry_places j b ip fs (grown b fs) file nz lt g)
            (λ n h.
              update_ne (grown b fs) (ip.addrs ndirect)
                (store32 (grown b fs (ip.addrs ndirect)) j b) n (λ e. h nz (sym e)))
            refl refl)
