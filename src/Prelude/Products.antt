-- ===== src/Prelude/Products.antt =====
-- Products of a weight with a sum or a difference.
use Prim.Native.Nat.{ℕ, ◌+◌, ◌-◌, ◌*◌, ◌≤◌}
use mathlib.Core.Path.{◌≡◌, ap}
use native.Mathlib.Omega.{arith}

pub mul_sub_add : (a x q : ℕ) → q ≤ x → a * (x - q) + a * q ≡ a * x
mul_sub_add a x q h = let e : x ≡ x - q + q = omega arith in omega (arith, ap (λ (t : ℕ). a * t) e)

pub mul_change : (a c x y : ℕ) → y ≤ c + x → a * (c + x - y) + a * y ≡ a * c + a * x
mul_change a c x y h =
    let e : c + x ≡ c + x - y + y = omega arith in omega (arith, ap (λ (t : ℕ). a * t) e)
