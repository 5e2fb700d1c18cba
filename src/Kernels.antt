-- ===== src/Kernels.antt =====
-- kernels/*.cpp, src/distance.cpp: cosine similarity and squared L2 distance, scalar and by SIMD
-- lanes. A `const float*` is a function from the index; floating-point arithmetic, which rounds,
-- is an interface.
mod Interface
pub mod Scalar
pub mod Avx2
pub mod Neon
pub mod Dispatch
pub mod Exact
pub use Interface.{Arith, Pointer, Sums}
unfoldable pub use Scalar.{cosine_similarity_naive, l2_distance_naive}
unfoldable pub use Avx2.{cosine_similarity_avx2, l2_distance_avx2}
