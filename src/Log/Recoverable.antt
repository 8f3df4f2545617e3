-- ===== src/Log/Recoverable.antt =====
-- Which disks w3/kernel/log.c can recover, and to what; the loops over the header.
use os_t.Prelude.{
  ℕ, zero, suc, ◌+◌, ◌-◌, ◌≤◌, ◌<◌, ◌≡◌, refl, ◌≢◌, ◌⊎◌, inl, inr, Bool, true, false, ◌&&◌, ◌||◌,
  arith, if◌then◌else◌, ltb, leb, ◌==◌, Bool-cases,
}
use os_t.Log.{log_blocks, read_blocks, write_blocks}
use os_t.Log.Disk.{Block, Blocks, update}

pub read_blocks_lem :
    (k i : ℕ) (w : Block) (f : ℕ → ℕ) (j : ℕ)
    → read_blocks k i w f j ≡ (if leb i j && ltb j (i + k) then w (j + 1) else f j)
unfolding read_blocks
read_blocks_lem zero i w f j = ground arith
read_blocks_lem (suc k) i w f j =
    ground (arith, read_blocks_lem k (i + 1) w (update f i (w (i + 1))) j)

pub write_blocks_lem :
    (k i : ℕ) (f : ℕ → ℕ) (w : Block) (j : ℕ)
    → write_blocks k i f w j ≡ (if ltb i j && leb j (i + k) then f (j - 1) else w j)
unfolding write_blocks
write_blocks_lem zero i f w j = ground arith
write_blocks_lem (suc k) i f w j =
    ground (arith, write_blocks_lem k (i + 1) f (update w (i + 1) (f i)) j)

-- One of the first `n` entries is `b`.
unfoldable pub among : (ℕ → ℕ) → ℕ → ℕ → Bool
among f zero b = false
among f (suc n) b = f n == b || among f n b

pub among-find : (f : ℕ → ℕ) (n b : ℕ) → among f n b ≡ true → (i : ℕ) × (i < n) × (f i ≡ b)
unfolding among
among-find f zero b h = absurd (cc)
among-find f (suc n) b h = elim (Bool-cases (f n == b)) [
  | inl e ↦ (n, omega arith, ground arith)
  | inr e ↦ let (i, lt, e') = among-find f n b (ground arith) in (i, omega arith, e')
]

pub among-entry : (f : ℕ → ℕ) (n i : ℕ) → i < n → among f n (f i) ≡ true
unfolding among
among-entry f zero i h = absurd (omega arith)
among-entry f (suc n) i h = elim (Bool-cases (i == n)) [
  | inl e ↦ ground arith
  | inr e ↦ ground (arith, among-entry f n i (ground arith))
]

pub among-none : (f : ℕ → ℕ) (n b : ℕ) → ((i : ℕ) → i < n → f i ≢ b) → among f n b ≡ false
unfolding among
among-none f zero b h = refl
among-none f (suc n) b h =
    ground (arith, h n (omega arith), among-none f n b (λ i lt. h i (omega arith)))

module _ (start : ℕ) where
  -- A block outside the log: neither the header nor one of its slots.
  abbrev pub InData : ℕ → Type 0
  InData b = (b < start) ⊎ (start + log_blocks < b)

  -- The header on disk lists blocks whose new contents stand in the log; every other data block
  -- has its new contents at home.
  pub record Recoverable (new d : Blocks) : Type 0 where
    pub few : d start 0 ≤ log_blocks
    pub homes : (i : ℕ) → i < d start 0 → InData (d start (i + 1))
    pub slots : (i : ℕ) → i < d start 0 → d (start + i + 1) ≡ new (d start (i + 1))
    pub others : (b : ℕ) → InData b → ((i : ℕ) → i < d start 0 → d start (i + 1) ≢ b) → d b ≡ new b

  -- All data blocks have the given contents.
  abbrev pub Holds : Blocks → Blocks → Type 0
  Holds new d = (b : ℕ) → InData b → d b ≡ new b

  -- With an empty header a recoverable disk holds the contents, and conversely.
  pub Recoverable-Holds : (new d : Blocks) → Recoverable new d → d start 0 ≡ 0 → Holds new d
  Recoverable-Holds new d r e b h = r.others b h (λ i lt. absurd (omega arith))

  pub Holds-Recoverable : (new d : Blocks) → Holds new d → d start 0 ≡ 0 → Recoverable new d
  Holds-Recoverable new d h e = record {
    few = omega arith;
    homes = λ i lt. absurd (omega arith);
    slots = λ i lt. absurd (omega arith);
    others = λ b data' _. h b data';
  }
