-- ===== src/Prelude/Integers.antt =====
-- Whole numbers over the native numbers.
use Prim.Native.Nat.{ℕ, ◌-◌, ◌+◌}
use a2a_broker.Prelude.Tests.{if◌then◌else◌, leb}

pub data ℤ : Type 0 where
  -- `negsuc n` is -(n + 1).
  pos negsuc : ℕ → ℤ

-- `m - n`
abbrev pub difference : ℕ → ℕ → ℤ
difference m n = if leb n m then pos (m - n) else negsuc (n - (m + 1))
