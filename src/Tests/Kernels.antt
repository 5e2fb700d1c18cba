-- ===== src/Tests/Kernels.antt =====
-- Runs of kernels/*.cpp and src/distance.cpp.
use neuraldatabase.Prelude.{ℕ, ◌+◌, ◌≡◌, refl, arith}
use neuraldatabase.Kernels.{Pointer}
use neuraldatabase.Kernels.Scalar.{cosine_similarity_naive, l2_distance_naive}
use neuraldatabase.Kernels.Dispatch.{avx2, cosine_similarity, l2_distance}
use neuraldatabase.Kernels.Exact.{IsExact}
use neuraldatabase.Kernels.Exact.Agree.{cosine_similarity-naive}
use neuraldatabase.Tests.Data.{toy}

toy-IsExact : IsExact toy
toy-IsExact = record {
  zero_add = λ x. omega arith;
  comm = λ x y. omega arith;
  assoc = λ x y z. omega arith;
  fused = λ x y z. refl;
}

ramp : Pointer ℕ
ramp i = i + 2

flat_line : Pointer ℕ
flat_line i = 1

cosine_similarity-naive_example :
    (cosine_similarity toy toy (λ x. x) (λ x. x) avx2 ramp flat_line 11
      ≡ cosine_similarity_naive toy (λ x. x) (λ x. x) ramp flat_line 11)
    × (l2_distance toy toy (λ x. x) (λ x. x) avx2 ramp flat_line 11
        ≡ l2_distance_naive toy (λ x. x) (λ x. x) ramp flat_line 11)
cosine_similarity-naive_example = cosine_similarity-naive toy toy-IsExact avx2 ramp flat_line 11
