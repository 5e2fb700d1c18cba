-- ===== src/Kernels/Exact/Agree.antt =====
-- src/distance.cpp and the kernels that it dispatches to.
use neuraldatabase.Prelude.{ℕ, ◌-◌, ◌≡◌, refl, ap, ◌∙◌, arith}
use neuraldatabase.Kernels.Interface.{Arith, Pointer}
use neuraldatabase.Kernels.Scalar.{
  cosine_loop, cosine_of, l2_loop, cosine_similarity_naive, l2_distance_naive,
}
use neuraldatabase.Kernels.Avx2.{setzero, hsum256, hsums, cosine_similarity_avx2, l2_distance_avx2}
use neuraldatabase.Kernels.Neon.{
  vdupq_zero, vaddvq, vaddvqs, cosine_similarity_neon, l2_distance_neon,
}
use neuraldatabase.Kernels.Dispatch.{Target, arm_neon, avx2, other, cosine_similarity, l2_distance}
use neuraldatabase.Kernels.Exact.{IsExact}
use neuraldatabase.Kernels.Exact.Quads.{l2_quads-tail, cosine_quads-tail}
use neuraldatabase.Kernels.Exact.Blocks.{l2_blocks-tail, cosine_blocks-tail}

minus_zero : (n : ℕ) → n - 0 ≡ n
minus_zero n = omega arith

module _ {F : Type 0} (ops : Arith F) (h : IsExact ops) where
  open ops use {zero_f, add, sub, mul, fma}

  hsum256-setzero : hsum256 ops (setzero ops) ≡ zero_f
  unfolding hsum256
  hsum256-setzero =
      let e = h.zero_add zero_f in ap (λ t. add (add t t) (add t t)) e ∙ ap (λ t. add t t) e ∙ e

  vaddvq-vdupq_zero : vaddvq ops (vdupq_zero ops) ≡ zero_f
  unfolding vaddvq
  vaddvq-vdupq_zero = let e = h.zero_add zero_f in ap (λ t. add t t) e ∙ e

  cosine_avx2-naive :
      (a b : Pointer F) (dim : ℕ)
      → cosine_similarity_avx2 ops a b dim ≡ cosine_similarity_naive ops (λ x. x) (λ x. x) a b dim
  unfolding cosine_similarity_naive cosine_similarity_avx2
  cosine_avx2-naive a b dim =
      let z = setzero ops in
      ap (cosine_of ops) (
        cosine_blocks-tail ops h dim dim 0 a b (record { dot = z; norm_a = z; norm_b = z })
        ∙ ap (λ n. cosine_loop ops n 0 a b (hsums ops (record { dot = z; norm_a = z; norm_b = z })))
            (minus_zero dim)
        ∙ ap (λ t. cosine_loop ops dim 0 a b (record { dot = t; norm_a = t; norm_b = t }))
            hsum256-setzero)

  cosine_neon-naive :
      (a b : Pointer F) (dim : ℕ)
      → cosine_similarity_neon ops a b dim ≡ cosine_similarity_naive ops (λ x. x) (λ x. x) a b dim
  unfolding cosine_similarity_naive cosine_similarity_neon
  cosine_neon-naive a b dim =
      let z = vdupq_zero ops in
      ap (cosine_of ops) (
        cosine_quads-tail ops h dim dim 0 a b (record { dot = z; norm_a = z; norm_b = z })
        ∙ ap
            (λ n.
              cosine_loop ops n 0 a b (vaddvqs ops (record { dot = z; norm_a = z; norm_b = z })))
            (minus_zero dim)
        ∙ ap (λ t. cosine_loop ops dim 0 a b (record { dot = t; norm_a = t; norm_b = t }))
            vaddvq-vdupq_zero)

  l2_avx2-naive :
      (a b : Pointer F) (dim : ℕ)
      → l2_distance_avx2 ops a b dim ≡ l2_distance_naive ops (λ x. x) (λ x. x) a b dim
  unfolding l2_distance_naive l2_distance_avx2
  l2_avx2-naive a b dim =
      l2_blocks-tail ops h dim dim 0 a b (setzero ops)
      ∙ ap (λ n. l2_loop ops n 0 a b (hsum256 ops (setzero ops))) (minus_zero dim)
      ∙ ap (λ t. l2_loop ops dim 0 a b t) hsum256-setzero

  l2_neon-naive :
      (a b : Pointer F) (dim : ℕ)
      → l2_distance_neon ops a b dim ≡ l2_distance_naive ops (λ x. x) (λ x. x) a b dim
  unfolding l2_distance_naive l2_distance_neon
  l2_neon-naive a b dim =
      l2_quads-tail ops h dim dim 0 a b (vdupq_zero ops)
      ∙ ap (λ n. l2_loop ops n 0 a b (vaddvq ops (vdupq_zero ops))) (minus_zero dim)
      ∙ ap (λ t. l2_loop ops dim 0 a b t) vaddvq-vdupq_zero

  -- Where the arithmetic does not round, the similarity and the distance that any build computes
  -- are those of the reference kernels.
  pub cosine_similarity-naive :
      (target : Target) (a b : Pointer F) (dim : ℕ)
      → (cosine_similarity ops ops (λ x. x) (λ x. x) target a b dim
          ≡ cosine_similarity_naive ops (λ x. x) (λ x. x) a b dim)
        × (l2_distance ops ops (λ x. x) (λ x. x) target a b dim
            ≡ l2_distance_naive ops (λ x. x) (λ x. x) a b dim)
  unfolding cosine_similarity l2_distance
  cosine_similarity-naive other a b dim = (refl, refl)
  cosine_similarity-naive avx2 a b dim = (cosine_avx2-naive a b dim, l2_avx2-naive a b dim)
  cosine_similarity-naive arm_neon a b dim = (cosine_neon-naive a b dim, l2_neon-naive a b dim)
