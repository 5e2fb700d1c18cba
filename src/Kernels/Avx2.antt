-- ===== src/Kernels/Avx2.antt =====
-- kernels/cosine_avx2.cpp, kernels/l2_avx2.cpp: eight lanes a round, a horizontal sum, and a scalar
-- tail.
use neuraldatabase.Prelude.{ℕ, zero, suc, ◌+◌, ◌-◌, leb, if◌then◌else◌}
use neuraldatabase.Kernels.Interface.{Arith, Pointer, Sums}
use neuraldatabase.Kernels.Scalar.{cosine_loop, cosine_of, l2_loop}

-- __m256
pub record Lanes (F : Type 0) : Type 0 where
  pub l0 : F
  pub l1 : F
  pub l2 : F
  pub l3 : F
  pub l4 : F
  pub l5 : F
  pub l6 : F
  pub l7 : F

-- lane by lane
abbrev pub lanes_map2 : {F : Type 0} → (F → F → F) → Lanes F → Lanes F → Lanes F
lanes_map2 f x y = record {
  l0 = f x.l0 y.l0;
  l1 = f x.l1 y.l1;
  l2 = f x.l2 y.l2;
  l3 = f x.l3 y.l3;
  l4 = f x.l4 y.l4;
  l5 = f x.l5 y.l5;
  l6 = f x.l6 y.l6;
  l7 = f x.l7 y.l7;
}

-- _mm256_loadu_ps(a + i)
abbrev pub loadu : {F : Type 0} → Pointer F → ℕ → Lanes F
loadu a i = record {
  l0 = a i;
  l1 = a (i + 1);
  l2 = a (i + 2);
  l3 = a (i + 3);
  l4 = a (i + 4);
  l5 = a (i + 5);
  l6 = a (i + 6);
  l7 = a (i + 7);
}

module _ {F : Type 0} (ops : Arith F) where
  open ops use {zero_f, add, sub, fma}

  abbrev pub setzero : Lanes F
  setzero = record {
    l0 = zero_f;
    l1 = zero_f;
    l2 = zero_f;
    l3 = zero_f;
    l4 = zero_f;
    l5 = zero_f;
    l6 = zero_f;
    l7 = zero_f;
  }

  -- _mm256_fmadd_ps
  unfoldable pub fmadd : Lanes F → Lanes F → Lanes F → Lanes F
  fmadd x y acc = record {
    l0 = fma x.l0 y.l0 acc.l0;
    l1 = fma x.l1 y.l1 acc.l1;
    l2 = fma x.l2 y.l2 acc.l2;
    l3 = fma x.l3 y.l3 acc.l3;
    l4 = fma x.l4 y.l4 acc.l4;
    l5 = fma x.l5 y.l5 acc.l5;
    l6 = fma x.l6 y.l6 acc.l6;
    l7 = fma x.l7 y.l7 acc.l7;
  }

  -- The high half on the low one, then neighbours, then the two pairs.
  unfoldable pub hsum256 : Lanes F → F
  hsum256 v = add (add (add v.l0 v.l4) (add v.l1 v.l5)) (add (add v.l2 v.l6) (add v.l3 v.l7))

  -- for (; i + 8 <= dim; i += 8): the index where it stops, and the accumulators
  unfoldable pub cosine_blocks :
      ℕ → ℕ → ℕ → Pointer F → Pointer F → Sums (Lanes F) → ℕ × Sums (Lanes F)
  unfolding fmadd
  cosine_blocks zero dim i a b s = (i, s)
  cosine_blocks (suc fuel) dim i a b s =
      let va = loadu a i in
      let vb = loadu b i in
      let rest = cosine_blocks fuel dim (i + 8) a b (record {
        dot = fmadd va vb s.dot;
        norm_a = fmadd va va s.norm_a;
        norm_b = fmadd vb vb s.norm_b;
      }) in
      if leb (i + 8) dim then rest else (i, s)

  abbrev pub hsums : Sums (Lanes F) → Sums F
  hsums s = record { dot = hsum256 s.dot; norm_a = hsum256 s.norm_a; norm_b = hsum256 s.norm_b }

  -- Fewer than `dim` rounds are made, so `dim` is fuel enough.
  unfoldable pub cosine_similarity_avx2 : Pointer F → Pointer F → ℕ → F
  unfolding cosine_blocks hsum256 cosine_loop cosine_of
  cosine_similarity_avx2 a b dim =
      let (i, s) =
        cosine_blocks dim dim 0 a b
          (record { dot = setzero; norm_a = setzero; norm_b = setzero }) in
      cosine_of ops (cosine_loop ops (dim - i) i a b (hsums s))

  unfoldable pub l2_blocks : ℕ → ℕ → ℕ → Pointer F → Pointer F → Lanes F → ℕ × Lanes F
  unfolding fmadd
  l2_blocks zero dim i a b acc = (i, acc)
  l2_blocks (suc fuel) dim i a b acc =
      let diff = lanes_map2 sub (loadu a i) (loadu b i) in
      let rest = l2_blocks fuel dim (i + 8) a b (fmadd diff diff acc) in
      if leb (i + 8) dim then rest else (i, acc)

  unfoldable pub l2_distance_avx2 : Pointer F → Pointer F → ℕ → F
  unfolding l2_blocks hsum256 l2_loop
  l2_distance_avx2 a b dim =
      let (i, acc) = l2_blocks dim dim 0 a b setzero in l2_loop ops (dim - i) i a b (hsum256 acc)
