-- ===== src/Base/Division.antt =====
-- Floor division by a positive number: the bounds that the pool arithmetic rests on.
use Prim.Native.Nat.{ℕ, ◌+◌, ◌*◌, ◌/◌, ◌≤◌, ◌<◌}
use native.Mathlib.Omega.{arith}

-- A quotient times its divisor is at most the dividend.
pub div-mul-le : (n d : ℕ) → 0 < d → n / d * d ≤ n
div-mul-le n d h = grind arith

-- The next multiple of the divisor is beyond the dividend.
pub lt-div-mul : (n d : ℕ) → 0 < d → n < n / d * d + d
lt-div-mul n d h = grind arith

pub le-div : (k n d : ℕ) → 0 < d → k * d ≤ n → k ≤ n / d
le-div k n d h e = grind arith
