-- ===== src/Kernels/Interface.antt =====
-- What the kernels share: arithmetic, pointers and accumulators.
use neuraldatabase.Prelude.{ℕ, Bool}

-- Floating-point arithmetic, as the kernels use it. `fma a b c` is a * b + c in one rounding,
-- `tiny` the test against 1e-12.
pub record Arith (F : Type 0) : Type 0 where
  pub zero_f : F
  pub add : F → F → F
  pub sub : F → F → F
  pub mul : F → F → F
  pub div : F → F → F
  pub fma : F → F → F → F
  pub sqrt : F → F
  pub tiny : F → Bool

abbrev pub Pointer : Type 0 → Type 0
Pointer F = ℕ → F

-- the accumulators of a cosine loop: sums, or vectors of partial sums
pub record Sums (A : Type 0) : Type 0 where
  pub dot : A
  pub norm_a : A
  pub norm_b : A
