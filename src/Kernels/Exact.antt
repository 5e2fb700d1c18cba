-- ===== src/Kernels/Exact.antt =====
-- The kernels where the arithmetic does not round: a sum may be taken in any order.
pub mod Quads
pub mod Blocks
pub mod Agree
use neuraldatabase.Prelude.{
  ℕ, zero, suc, ◌+◌, ◌-◌, ◌≤◌, ◌≡◌, refl, sym, ap, ◌∙◌, inl, inr, arith, leb, if◌then◌else◌,
  Bool-cases,
}
use neuraldatabase.Kernels.Interface.{Arith, Pointer, Sums}
use neuraldatabase.Kernels.Scalar.{
  no_sums, cosine_loop, cosine_of, l2_loop, cosine_similarity_naive, l2_distance_naive,
}
use neuraldatabase.Kernels.Avx2.{
  Lanes, lanes_map2, loadu, setzero, fmadd, hsum256, cosine_blocks, hsums, cosine_similarity_avx2,
  l2_blocks, l2_distance_avx2,
}
use neuraldatabase.Kernels.Neon.{
  Quad, vld1q, vdupq_zero, vsubq, vfmaq, vaddvq, cosine_quads, vaddvqs, cosine_similarity_neon,
  l2_quads, l2_distance_neon,
}
use neuraldatabase.Kernels.Dispatch.{Target, arm_neon, avx2, other, cosine_similarity, l2_distance}

-- Addition is that of a commutative monoid, and the fused operation is the two others.
pub record IsExact {F : Type 0} (ops : Arith F) : Type 0 where
  pub zero_add : (x : F) → ops.add ops.zero_f x ≡ x
  pub comm : (x y : F) → ops.add x y ≡ ops.add y x
  pub assoc : (x y z : F) → ops.add (ops.add x y) z ≡ ops.add x (ops.add y z)
  pub fused : (x y z : F) → ops.fma x y z ≡ ops.add (ops.mul x y) z

module _ {F : Type 0} (ops : Arith F) where
  open ops use {add, sub, mul}

  unfoldable pub plus4 : F → F → F → F → F → F
  plus4 acc t0 t1 t2 t3 = add (add (add (add acc t0) t1) t2) t3

  unfoldable pub square : Pointer F → Pointer F → ℕ → F
  square a b i = mul (sub (a i) (b i)) (sub (a i) (b i))

  unfoldable pub product : Pointer F → Pointer F → ℕ → F
  product a b i = mul (a i) (b i)

  unfoldable pub next4 : (ℕ → F) → ℕ → F → F
  next4 f i acc = plus4 acc (f i) (f (i + 1)) (f (i + 2)) (f (i + 3))

  unfoldable pub sums4 : Pointer F → Pointer F → ℕ → Sums F → Sums F
  sums4 a b i s = record {
    dot = next4 (product a b) i s.dot;
    norm_a = next4 (product a a) i s.norm_a;
    norm_b = next4 (product b b) i s.norm_b;
  }

  pub l2_four :
      (n i : ℕ) (a b : Pointer F) (acc : F)
      → l2_loop ops (suc (suc (suc (suc n)))) i a b acc
        ≡ l2_loop ops n (i + 4) a b (next4 (square a b) i acc)
  unfolding l2_loop plus4 square next4
  l2_four n i a b acc =
      let e2 : i + 1 + 1 ≡ i + 2 = omega arith in
      let e3 : i + 2 + 1 ≡ i + 3 = omega arith in
      let e4 : i + 3 + 1 ≡ i + 4 = omega arith in rw (e2, e3, e4) refl

  pub cosine_four :
      (n i : ℕ) (a b : Pointer F) (s : Sums F)
      → cosine_loop ops (suc (suc (suc (suc n)))) i a b s
        ≡ cosine_loop ops n (i + 4) a b (sums4 a b i s)
  unfolding cosine_loop plus4 product next4 sums4
  cosine_four n i a b s =
      let e2 : i + 1 + 1 ≡ i + 2 = omega arith in
      let e3 : i + 2 + 1 ≡ i + 3 = omega arith in
      let e4 : i + 3 + 1 ≡ i + 4 = omega arith in rw (e2, e3, e4) refl

module _ {F : Type 0} (ops : Arith F) (h : IsExact ops) where
  open ops use {zero_f, add, sub, mul, fma}

  left_comm : (x y z : F) → add x (add y z) ≡ add y (add x z)
  left_comm x y z = sym (h.assoc x y z) ∙ ap (λ t. add t z) (h.comm x y) ∙ h.assoc y x z

  pub hsum256-fmadd :
      (x y acc : Lanes F)
      → hsum256 ops (fmadd ops x y acc)
        ≡ plus4 ops
            (plus4 ops
              (hsum256 ops acc)
              (mul x.l0 y.l0)
              (mul x.l1 y.l1)
              (mul x.l2 y.l2)
              (mul x.l3 y.l3))
            (mul x.l4 y.l4)
            (mul x.l5 y.l5)
            (mul x.l6 y.l6)
            (mul x.l7 y.l7)
  unfolding hsum256 fmadd plus4
  hsum256-fmadd x y acc = simp (h.fused, h.assoc, h.comm, left_comm)

  pub vaddvq-vfmaq :
      (x y acc : Quad F)
      → vaddvq ops (vfmaq ops acc x y)
        ≡ plus4 ops (vaddvq ops acc) (mul x.q0 y.q0) (mul x.q1 y.q1) (mul x.q2 y.q2) (mul x.q3 y.q3)
  unfolding vaddvq vfmaq plus4
  vaddvq-vfmaq x y acc = simp (h.fused, h.assoc, h.comm, left_comm)
