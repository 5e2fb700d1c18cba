-- ===== src/Kernels/Scalar.antt =====
-- kernels/cosine_naive.cpp, the reference kernels, and the scalar tails of the others. Sums are
-- kept in `double`: `wide` is its arithmetic, `widen` and `narrow` the conversions.
use neuraldatabase.Prelude.{ℕ, zero, suc, ◌+◌, if◌then◌else◌}
use neuraldatabase.Kernels.Interface.{Arith, Pointer, Sums}

module _ {F : Type 0} (ops : Arith F) where
  open ops use {zero_f, add, sub, mul, div, sqrt, tiny}

  abbrev pub no_sums : Sums F
  no_sums = record { dot = zero_f; norm_a = zero_f; norm_b = zero_f }

  -- for (; i < dim; ++i) with `n` rounds to go
  unfoldable pub cosine_loop : ℕ → ℕ → Pointer F → Pointer F → Sums F → Sums F
  cosine_loop zero i a b s = s
  cosine_loop (suc n) i a b s = cosine_loop n (i + 1) a b (record {
    dot = add s.dot (mul (a i) (b i));
    norm_a = add s.norm_a (mul (a i) (a i));
    norm_b = add s.norm_b (mul (b i) (b i));
  })

  unfoldable pub cosine_of : Sums F → F
  cosine_of s =
      let denom = mul (sqrt s.norm_a) (sqrt s.norm_b) in
      if tiny denom then zero_f else div s.dot denom

  unfoldable pub l2_loop : ℕ → ℕ → Pointer F → Pointer F → F → F
  l2_loop zero i a b acc = acc
  l2_loop (suc n) i a b acc = let d = sub (a i) (b i) in l2_loop n (i + 1) a b (add acc (mul d d))

module _ {F D : Type 0} (wide : Arith D) (widen : F → D) (narrow : D → F) where
  unfoldable pub cosine_similarity_naive : Pointer F → Pointer F → ℕ → F
  unfolding cosine_loop cosine_of
  cosine_similarity_naive a b dim =
      narrow (
        cosine_of wide
          (cosine_loop wide dim 0 (λ i. widen (a i)) (λ i. widen (b i)) (no_sums wide)))

  unfoldable pub l2_distance_naive : Pointer F → Pointer F → ℕ → F
  unfolding l2_loop
  l2_distance_naive a b dim =
      narrow (l2_loop wide dim 0 (λ i. widen (a i)) (λ i. widen (b i)) wide.zero_f)
