-- ===== src/Prelude/Division.antt =====
-- Division rounded up.
use native.Mathlib.Nat.{div-add-mod, mod-lt}
use Prim.Native.Nat.{ℕ, ◌+◌, ◌-◌, ◌*◌, ◌/◌, ◌≤◌, ◌<◌}
use native.Mathlib.Omega.{arith}

abbrev pub ceil_div : ℕ → ℕ → ℕ
ceil_div a b = (a + (b - 1)) / b

pub ceil_div-le : (a b : ℕ) → 0 < b → a ≤ ceil_div a b * b
ceil_div-le a b h = omega (arith, div-add-mod (a + (b - 1)) b, mod-lt (a + (b - 1)) h)
