-- ===== src/Kernels/Dispatch.antt =====
-- src/distance.cpp: which kernel a build calls.
use neuraldatabase.Prelude.{ℕ}
use neuraldatabase.Kernels.Interface.{Arith, Pointer}
use neuraldatabase.Kernels.Scalar.{cosine_similarity_naive, l2_distance_naive}
use neuraldatabase.Kernels.Avx2.{cosine_similarity_avx2, l2_distance_avx2}
use neuraldatabase.Kernels.Neon.{cosine_similarity_neon, l2_distance_neon}

-- __ARM_NEON, __AVX2__ or neither
pub data Target : Type 0 where
  arm_neon avx2 other : Target

module _ {F D : Type 0} (ops : Arith F) (wide : Arith D) (widen : F → D) (narrow : D → F) where
  unfoldable pub cosine_similarity : Target → Pointer F → Pointer F → ℕ → F
  cosine_similarity arm_neon a b dim = cosine_similarity_neon ops a b dim
  cosine_similarity avx2 a b dim = cosine_similarity_avx2 ops a b dim
  cosine_similarity other a b dim = cosine_similarity_naive wide widen narrow a b dim

  unfoldable pub l2_distance : Target → Pointer F → Pointer F → ℕ → F
  l2_distance arm_neon a b dim = l2_distance_neon ops a b dim
  l2_distance avx2 a b dim = l2_distance_avx2 ops a b dim
  l2_distance other a b dim = l2_distance_naive wide widen narrow a b dim
