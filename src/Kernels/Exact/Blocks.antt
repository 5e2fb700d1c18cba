-- ===== src/Kernels/Exact/Blocks.antt =====
-- kernels/cosine_avx2.cpp, kernels/l2_avx2.cpp: rounds of eight lanes against the scalar loop.
use neuraldatabase.Prelude.{
  ℕ, zero, suc, ◌+◌, ◌-◌, ◌≡◌, refl, sym, ap, ◌∙◌, inl, inr, arith, leb, Bool-cases, true,
}
use neuraldatabase.Kernels.Interface.{Arith, Pointer, Sums}
use neuraldatabase.Kernels.Scalar.{cosine_loop, l2_loop}
use neuraldatabase.Kernels.Avx2.{
  Lanes, lanes_map2, loadu, fmadd, hsum256, cosine_blocks, hsums, l2_blocks,
}
use neuraldatabase.Kernels.Exact.{
  IsExact, plus4, square, product, next4, sums4, l2_four, cosine_four, hsum256-fmadd,
}

eight : (i : ℕ) → i + 4 + 4 ≡ i + 8
eight i = omega arith

left :
    (dim i : ℕ)
    → leb (i + 8) dim ≡ true
    → dim - i ≡ suc (suc (suc (suc (suc (suc (suc (suc (dim - (i + 8)))))))))
left dim i e = ground arith

module _ {F : Type 0} (ops : Arith F) (h : IsExact ops) where
  open ops use {zero_f, add, sub, mul, fma}

  -- the second half of eight terms
  later :
      (f : ℕ → F) (i : ℕ) (acc : F)
      → next4 ops f (i + 4) acc ≡ plus4 ops acc (f (i + 4)) (f (i + 5)) (f (i + 6)) (f (i + 7))
  unfolding next4 plus4
  later f i acc =
      let e5 : i + 4 + 1 ≡ i + 5 = omega arith in
      let e6 : i + 4 + 2 ≡ i + 6 = omega arith in
      let e7 : i + 4 + 3 ≡ i + 7 = omega arith in rw (e5, e6, e7) refl

  -- The tail behind the rounds of eight lanes, for whatever fuel, ends as the scalar loop does.
  pub l2_blocks-tail :
      (fuel dim i : ℕ) (a b : Pointer F) (acc : Lanes F)
      → (let r = l2_blocks ops fuel dim i a b acc in
          l2_loop ops (dim - r.0) r.0 a b (hsum256 ops r.1))
        ≡ l2_loop ops (dim - i) i a b (hsum256 ops acc)
  unfolding l2_blocks next4 plus4 square
  l2_blocks-tail zero dim i a b acc = refl
  l2_blocks-tail (suc fuel) dim i a b acc = elim (Bool-cases (leb (i + 8) dim)) [
    | inr e ↦ rw (l2_blocks, e) refl
    | inl e ↦
        let d = lanes_map2 sub (loadu a i) (loadu b i) in
        let m = dim - (i + 8) in
        let half = next4 ops (square ops a b) i (hsum256 ops acc) in
        rw (l2_blocks, e)
          (l2_blocks-tail fuel dim (i + 8) a b (fmadd ops d d acc)
            ∙ ap (λ t. l2_loop ops m (i + 8) a b t)
                (hsum256-fmadd ops h d d acc ∙ sym (later (square ops a b) i half))
            ∙ ap (λ k. l2_loop ops m k a b (next4 ops (square ops a b) (i + 4) half))
                (sym (eight i))
            ∙ sym (l2_four ops m (i + 4) a b half)
            ∙ sym (l2_four ops (suc (suc (suc (suc m)))) i a b (hsum256 ops acc))
            ∙ ap (λ n. l2_loop ops n i a b (hsum256 ops acc)) (sym (left dim i e)))
  ]

  pub cosine_blocks-tail :
      (fuel dim i : ℕ) (a b : Pointer F) (s : Sums (Lanes F))
      → (let r = cosine_blocks ops fuel dim i a b s in
          cosine_loop ops (dim - r.0) r.0 a b (hsums ops r.1))
        ≡ cosine_loop ops (dim - i) i a b (hsums ops s)
  unfolding cosine_blocks sums4 next4 plus4 product
  cosine_blocks-tail zero dim i a b s = refl
  cosine_blocks-tail (suc fuel) dim i a b s = elim (Bool-cases (leb (i + 8) dim)) [
    | inr e ↦ rw (cosine_blocks, e) refl
    | inl e ↦
        let va = loadu a i in
        let vb = loadu b i in
        let m = dim - (i + 8) in
        let half = sums4 ops a b i (hsums ops s) in
        let next : Sums (Lanes F) = record {
          dot = fmadd ops va vb s.dot;
          norm_a = fmadd ops va va s.norm_a;
          norm_b = fmadd ops vb vb s.norm_b;
        } in
        let sums : hsums ops next ≡ sums4 ops a b (i + 4) half =
          rw
            (
              hsum256-fmadd ops h va vb s.dot,
              hsum256-fmadd ops h va va s.norm_a,
              hsum256-fmadd ops h vb vb s.norm_b,
              later (product ops a b) i half.dot,
              later (product ops a a) i half.norm_a,
              later (product ops b b) i half.norm_b,
            )
            refl in
        rw (cosine_blocks, e)
          (cosine_blocks-tail fuel dim (i + 8) a b next
            ∙ ap (λ t. cosine_loop ops m (i + 8) a b t) sums
            ∙ ap (λ k. cosine_loop ops m k a b (sums4 ops a b (i + 4) half)) (sym (eight i))
            ∙ sym (cosine_four ops m (i + 4) a b half)
            ∙ sym (cosine_four ops (suc (suc (suc (suc m)))) i a b (hsums ops s))
            ∙ ap (λ n. cosine_loop ops n i a b (hsums ops s)) (sym (left dim i e)))
  ]
