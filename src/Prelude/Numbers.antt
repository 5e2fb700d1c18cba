-- ===== src/Prelude/Numbers.antt =====
-- Products of native numbers.
use Prim.Native.Nat.{ℕ, ◌+◌, ◌-◌, ◌*◌, ◌≤◌, ◌<◌}
use mathlib.Core.Path.{◌≡◌, ap}
use native.Mathlib.Omega.{arith}

-- row `i` of `nv` rows of `dim` elements
pub row_fits : (nv i dim : ℕ) → i < nv → i * dim + dim ≤ nv * dim
row_fits nv i dim l =
    let e : nv ≡ i + 1 + (nv - i - 1) = omega arith in
    let more : (i + 1 + (nv - i - 1)) * dim ≡ i * dim + dim + (nv - i - 1) * dim = omega arith in
    omega (arith, ap (λ k. k * dim) e, more)
