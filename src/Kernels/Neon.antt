-- ===== src/Kernels/Neon.antt =====
-- kernels/cosine_neon.cpp, kernels/l2_neon.cpp: four lanes a round, for a target with NEON. (On
-- another one, these functions call those of Avx2.)
use neuraldatabase.Prelude.{ℕ, zero, suc, ◌+◌, ◌-◌, leb, if◌then◌else◌}
use neuraldatabase.Kernels.Interface.{Arith, Pointer, Sums}
use neuraldatabase.Kernels.Scalar.{cosine_loop, cosine_of, l2_loop}

-- float32x4_t
pub record Quad (F : Type 0) : Type 0 where
  pub q0 : F
  pub q1 : F
  pub q2 : F
  pub q3 : F

-- vld1q_f32(a + i)
abbrev pub vld1q : {F : Type 0} → Pointer F → ℕ → Quad F
vld1q a i = record { q0 = a i; q1 = a (i + 1); q2 = a (i + 2); q3 = a (i + 3) }

module _ {F : Type 0} (ops : Arith F) where
  open ops use {zero_f, add, sub, fma}

  -- vdupq_n_f32(0.f)
  abbrev pub vdupq_zero : Quad F
  vdupq_zero = record { q0 = zero_f; q1 = zero_f; q2 = zero_f; q3 = zero_f }

  -- vsubq_f32
  abbrev pub vsubq : Quad F → Quad F → Quad F
  vsubq x y = record {
    q0 = sub x.q0 y.q0;
    q1 = sub x.q1 y.q1;
    q2 = sub x.q2 y.q2;
    q3 = sub x.q3 y.q3;
  }

  -- vfmaq_f32: the accumulator stands first
  unfoldable pub vfmaq : Quad F → Quad F → Quad F → Quad F
  vfmaq acc x y = record {
    q0 = fma x.q0 y.q0 acc.q0;
    q1 = fma x.q1 y.q1 acc.q1;
    q2 = fma x.q2 y.q2 acc.q2;
    q3 = fma x.q3 y.q3 acc.q3;
  }

  -- vaddvq_f32 adds neighbours, then the two pairs
  unfoldable pub vaddvq : Quad F → F
  vaddvq v = add (add v.q0 v.q1) (add v.q2 v.q3)

  -- for (; i + 4 <= dim; i += 4)
  unfoldable pub cosine_quads :
      ℕ → ℕ → ℕ → Pointer F → Pointer F → Sums (Quad F) → ℕ × Sums (Quad F)
  cosine_quads zero dim i a b s = (i, s)
  cosine_quads (suc fuel) dim i a b s =
      let va = vld1q a i in
      let vb = vld1q b i in
      let rest = cosine_quads fuel dim (i + 4) a b (record {
        dot = vfmaq s.dot va vb;
        norm_a = vfmaq s.norm_a va va;
        norm_b = vfmaq s.norm_b vb vb;
      }) in
      if leb (i + 4) dim then rest else (i, s)

  abbrev pub vaddvqs : Sums (Quad F) → Sums F
  vaddvqs s = record { dot = vaddvq s.dot; norm_a = vaddvq s.norm_a; norm_b = vaddvq s.norm_b }

  unfoldable pub cosine_similarity_neon : Pointer F → Pointer F → ℕ → F
  cosine_similarity_neon a b dim =
      let (i, s) =
        cosine_quads dim dim 0 a b
          (record { dot = vdupq_zero; norm_a = vdupq_zero; norm_b = vdupq_zero }) in
      cosine_of ops (cosine_loop ops (dim - i) i a b (vaddvqs s))

  unfoldable pub l2_quads : ℕ → ℕ → ℕ → Pointer F → Pointer F → Quad F → ℕ × Quad F
  l2_quads zero dim i a b acc = (i, acc)
  l2_quads (suc fuel) dim i a b acc =
      let diff = vsubq (vld1q a i) (vld1q b i) in
      let rest = l2_quads fuel dim (i + 4) a b (vfmaq acc diff diff) in
      if leb (i + 4) dim then rest else (i, acc)

  unfoldable pub l2_distance_neon : Pointer F → Pointer F → ℕ → F
  l2_distance_neon a b dim =
      let (i, acc) = l2_quads dim dim 0 a b vdupq_zero in l2_loop ops (dim - i) i a b (vaddvq acc)
