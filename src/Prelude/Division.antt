-- ===== src/Prelude/Division.antt =====
-- Floor division by a number that is not known.
use Prim.Native.Nat.{ℕ, ◌/◌, ◌≤◌}
use native.Mathlib.Nat.{le-div_iff_mul-le, div-mul-le_self}
use native.Mathlib.Omega.{arith}

pub div_mono : (m n k : ℕ) → 1 ≤ k → m ≤ n → m / k ≤ n / k
div_mono m n k pos h =
    (le-div_iff_mul-le {k = k} {x = m / k} {y = n} (omega (arith, pos))).1
      (omega (arith, h, div-mul-le_self m k))
