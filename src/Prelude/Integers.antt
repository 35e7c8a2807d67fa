-- ===== src/Prelude/Integers.antt =====
-- Integers over the native numbers, for what may be negative in Python.
use Prim.Native.Nat.{ℕ, zero, suc, ◌-◌}
use bndl.Prelude.Tests.{if◌then◌else◌, leb}

pub data ℤ : Type 0 where
  pos : ℕ → ℤ
  -- `negsuc n` is -(n + 1)
  negsuc : ℕ → ℤ

abbrev negative : ℕ → ℤ
negative zero = pos 0
negative (suc n) = negsuc n

-- The difference of two numbers.
infixl 20 ◌⊖◌
abbrev pub ◌⊖◌ : ℕ → ℕ → ℤ
m ⊖ n = if leb n m then pos (m - n) else negative (n - m)
