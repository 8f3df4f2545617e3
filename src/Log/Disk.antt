-- ===== src/Log/Disk.antt =====
-- The disk and the buffer cache as w3/kernel/log.c uses them: for each block of the one device the
-- words that a `bread` returns, the words on disk and the number of pins. A machine writes `power`
-- more blocks before it stops, so every run is also the run of a machine that crashes: with no
-- power left `bwrite` leaves the disk alone.
use os_t.Prelude.{ℕ, ◌+◌, ◌-◌, if◌then◌else◌, ltb, ◌==◌}

-- The 32-bit words of a block.
abbrev pub Block : Type 0
Block = ℕ → ℕ

abbrev pub Blocks : Type 0
Blocks = ℕ → Block

pub record Buffers : Type 0 where
  pub cache : Blocks
  pub disk : Blocks
  pub pins : ℕ → ℕ
  pub power : ℕ

-- A write at one number.
abbrev pub update {ℓ} : {A : Type ℓ} → (ℕ → A) → ℕ → A → ℕ → A
update f i v j = if i == j then v else f j

-- `bread`, then writes to its data
abbrev pub put : ℕ → Block → Buffers → Buffers
put b v s = record s { cache = update s.cache b v }

abbrev pub bwrite : ℕ → Buffers → Buffers
bwrite b s = record s {
  disk = if ltb 0 s.power then update s.disk b (s.cache b) else s.disk;
  power = s.power - 1;
}

abbrev pub bpin : ℕ → Buffers → Buffers
bpin b s = record s { pins = update s.pins b (s.pins b + 1) }

abbrev pub bunpin : ℕ → Buffers → Buffers
bunpin b s = record s { pins = update s.pins b (s.pins b - 1) }

-- After a crash only the disk is left.
abbrev pub boot : Blocks → ℕ → Buffers
boot d p = record { cache = d; disk = d; pins = λ b. 0; power = p }
