-- ===== src/Kernels/Exact/Quads.antt =====
-- kernels/cosine_neon.cpp, kernels/l2_neon.cpp: rounds of four lanes against the scalar loop.
use neuraldatabase.Prelude.{
  ℕ, zero, suc, ◌+◌, ◌-◌, ◌≡◌, refl, sym, ap, ◌∙◌, inl, inr, arith, leb, Bool-cases,
}
use neuraldatabase.Kernels.Interface.{Arith, Pointer, Sums}
use neuraldatabase.Kernels.Scalar.{cosine_loop, l2_loop}
use neuraldatabase.Kernels.Neon.{Quad, vld1q, vsubq, vfmaq, vaddvq, cosine_quads, vaddvqs, l2_quads}
use neuraldatabase.Kernels.Exact.{
  IsExact, plus4, square, product, next4, sums4, l2_four, cosine_four, vaddvq-vfmaq,
}

module _ {F : Type 0} (ops : Arith F) (h : IsExact ops) where
  open ops use {zero_f, add, sub, mul, fma}

  -- The tail behind the rounds of four lanes, for whatever fuel, ends as the scalar loop does.
  pub l2_quads-tail :
      (fuel dim i : ℕ) (a b : Pointer F) (acc : Quad F)
      → (let r = l2_quads ops fuel dim i a b acc in
          l2_loop ops (dim - r.0) r.0 a b (vaddvq ops r.1))
        ≡ l2_loop ops (dim - i) i a b (vaddvq ops acc)
  unfolding l2_quads next4 plus4 square
  l2_quads-tail zero dim i a b acc = refl
  l2_quads-tail (suc fuel) dim i a b acc = elim (Bool-cases (leb (i + 4) dim)) [
    | inr e ↦ rw (l2_quads, e) refl
    | inl e ↦
        let diff = vsubq ops (vld1q a i) (vld1q b i) in
        let left : dim - i ≡ suc (suc (suc (suc (dim - (i + 4))))) = ground arith in
        rw (l2_quads, e)
          (l2_quads-tail fuel dim (i + 4) a b (vfmaq ops acc diff diff)
            ∙ ap (λ t. l2_loop ops (dim - (i + 4)) (i + 4) a b t) (quad_squares i a b acc)
            ∙ sym (l2_four ops (dim - (i + 4)) i a b (vaddvq ops acc))
            ∙ ap (λ n. l2_loop ops n i a b (vaddvq ops acc)) (sym left))
  ]
    where
      quad_squares :
          (i : ℕ) (a b : Pointer F) (acc : Quad F)
          → (let d = vsubq ops (vld1q a i) (vld1q b i) in vaddvq ops (vfmaq ops acc d d))
            ≡ next4 ops (square ops a b) i (vaddvq ops acc)
      quad_squares i a b acc =
          let d = vsubq ops (vld1q a i) (vld1q b i) in vaddvq-vfmaq ops h d d acc

  pub cosine_quads-tail :
      (fuel dim i : ℕ) (a b : Pointer F) (s : Sums (Quad F))
      → (let r = cosine_quads ops fuel dim i a b s in
          cosine_loop ops (dim - r.0) r.0 a b (vaddvqs ops r.1))
        ≡ cosine_loop ops (dim - i) i a b (vaddvqs ops s)
  unfolding cosine_quads sums4 next4 plus4 product
  cosine_quads-tail zero dim i a b s = refl
  cosine_quads-tail (suc fuel) dim i a b s = elim (Bool-cases (leb (i + 4) dim)) [
    | inr e ↦ rw (cosine_quads, e) refl
    | inl e ↦
        let va = vld1q a i in
        let vb = vld1q b i in
        let left : dim - i ≡ suc (suc (suc (suc (dim - (i + 4))))) = ground arith in
        let next : Sums (Quad F) = record {
          dot = vfmaq ops s.dot va vb;
          norm_a = vfmaq ops s.norm_a va va;
          norm_b = vfmaq ops s.norm_b vb vb;
        } in
        let sums : vaddvqs ops next ≡ sums4 ops a b i (vaddvqs ops s) =
          rw
            (
              vaddvq-vfmaq ops h va vb s.dot,
              vaddvq-vfmaq ops h va va s.norm_a,
              vaddvq-vfmaq ops h vb vb s.norm_b,
            )
            refl in
        rw (cosine_quads, e)
          (cosine_quads-tail fuel dim (i + 4) a b next
            ∙ ap (λ t. cosine_loop ops (dim - (i + 4)) (i + 4) a b t) sums
            ∙ sym (cosine_four ops (dim - (i + 4)) i a b (vaddvqs ops s))
            ∙ ap (λ n. cosine_loop ops n i a b (vaddvqs ops s)) (sym left))
  ]
