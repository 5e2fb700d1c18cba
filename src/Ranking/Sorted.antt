-- ===== src/Ranking/Sorted.antt =====
-- The ranking is a rearrangement in descending order of score, and does not look at what is scored.
use mathlib.Core.List.{Perm}
use mathlib.Core.List.Perm
use neuraldatabase.Prelude.{
  ℕ, ◌≤◌, ◌≡◌, refl, inl, inr, List, [], ◌∷◌, map, arith, All, All-take, All-drop, zero, take, drop,
  Bool-cases, length, suc,
}
use neuraldatabase.Float.{IsNumber, rank, float_lt-rank}
use neuraldatabase.Ranking.{Scored, before, rank_in, sort_desc}

module _ {A : Type 0} where
  abbrev pub HasNumber : Scored A → Type 0
  HasNumber x = IsNumber x.0

  -- no entry of the list scores more
  abbrev pub IsTop : Scored A → List (Scored A) → Type 0
  IsTop x xs = All (λ y. rank y.0 ≤ rank x.0) xs

  -- no later entry scores more than an earlier one
  abbrev pub IsDescending : List (Scored A) → Type 0
  IsDescending [] = Unit
  IsDescending (x ∷ xs) = IsTop x xs × IsDescending xs

  pub All-rank_in :
      (P : Scored A → Type 0) (x : Scored A) (xs : List (Scored A))
      → P x
      → All P xs
      → All P (rank_in x xs)
  unfolding rank_in
  All-rank_in P x [] h k = (h, tt)
  All-rank_in P x (y ∷ ys) h k = elim (Bool-cases (before y x)) [
    | inl e ↦ rw e (k.0, All-rank_in P x ys h k.1)
    | inr e ↦ rw e (h, k)
  ]

  pub All-sort_desc :
      (P : Scored A → Type 0) (xs : List (Scored A)) → All P xs → All P (sort_desc xs)
  unfolding sort_desc
  All-sort_desc P [] h = tt
  All-sort_desc P (x ∷ xs) h = All-rank_in P x (sort_desc xs) h.0 (All-sort_desc P xs h.1)

  pub IsTop-trans :
      (x y : Scored A) (xs : List (Scored A)) → rank y.0 ≤ rank x.0 → IsTop y xs → IsTop x xs
  IsTop-trans x y [] h k = tt
  IsTop-trans x y (z ∷ zs) h k = (omega (arith, k.0), IsTop-trans x y zs h k.1)

  rank_in-IsDescending :
      (x : Scored A) (xs : List (Scored A))
      → HasNumber x
      → All HasNumber xs
      → IsDescending xs
      → IsDescending (rank_in x xs)
  unfolding rank_in
  rank_in-IsDescending x [] h k d = (tt, tt)
  rank_in-IsDescending x (y ∷ ys) h k d =
      let order = float_lt-rank x.0 y.0 h k.0 in
      elim (Bool-cases (before y x)) [
        | inl e ↦ rw e (
          All-rank_in (λ z. rank z.0 ≤ rank y.0) x ys (ground arith) d.0,
          rank_in-IsDescending x ys h k.1 d.1,
        )
        | inr e ↦
            let p : rank y.0 ≤ rank x.0 = ground arith in rw e ((p, IsTop-trans x y ys p d.0), d)
      ]

  -- Scores that are numbers come out in descending order.
  pub sort_desc-IsDescending :
      (xs : List (Scored A)) → All HasNumber xs → IsDescending (sort_desc xs)
  unfolding sort_desc
  sort_desc-IsDescending [] h = tt
  sort_desc-IsDescending (x ∷ xs) h =
      rank_in-IsDescending x (sort_desc xs) h.0 (All-sort_desc HasNumber xs h.1)
        (sort_desc-IsDescending xs h.1)

  -- The first `n` of a descending list are in order, and none of the others beats one of them.
  pub IsDescending-take :
      (n : ℕ) (xs : List (Scored A)) → IsDescending xs → IsDescending (take n xs)
  IsDescending-take zero xs d = tt
  IsDescending-take (suc n) [] d = tt
  IsDescending-take (suc n) (x ∷ xs) d =
      (All-take (λ y. rank y.0 ≤ rank x.0) n xs d.0, IsDescending-take n xs d.1)

  pub IsTop-drop :
      (n : ℕ) (xs : List (Scored A)) → IsDescending xs → All (λ x. IsTop x (drop n xs)) (take n xs)
  IsTop-drop zero xs d = tt
  IsTop-drop (suc n) [] d = tt
  IsTop-drop (suc n) (x ∷ xs) d =
      (All-drop (λ y. rank y.0 ≤ rank x.0) n xs d.0, IsTop-drop n xs d.1)

  rank_in-perm : (x : Scored A) (xs : List (Scored A)) → Perm (rank_in x xs) (x ∷ xs)
  unfolding rank_in
  rank_in-perm x [] = Perm.rfl
  rank_in-perm x (y ∷ ys) = elim (Bool-cases (before y x)) [
    | inl e ↦ rw e (Perm.trans (Perm.cons y (rank_in-perm x ys)) (Perm.swap x y ys))
    | inr e ↦ rw e Perm.rfl
  ]

  -- Nothing is lost and nothing is added.
  pub sort_desc-perm : (xs : List (Scored A)) → Perm (sort_desc xs) xs
  unfolding sort_desc
  sort_desc-perm [] = Perm.rfl
  sort_desc-perm (x ∷ xs) =
      Perm.trans (rank_in-perm x (sort_desc xs)) (Perm.cons x (sort_desc-perm xs))

  pub length-rank_in :
      (x : Scored A) (xs : List (Scored A)) → length (rank_in x xs) ≡ suc (length xs)
  unfolding rank_in
  length-rank_in x [] = refl
  length-rank_in x (y ∷ ys) = ground (arith, length-rank_in x ys)

  pub length-sort_desc : (xs : List (Scored A)) → length (sort_desc xs) ≡ length xs
  unfolding sort_desc
  length-sort_desc [] = refl
  length-sort_desc (x ∷ xs) = omega (arith, length-rank_in x (sort_desc xs), length-sort_desc xs)

module _ {A B : Type 0} (f : A → B) where
  abbrev pub relabel : List (Scored A) → List (Scored B)
  relabel = map (λ x. (x.0, f x.1))

  rank_in-relabel :
      (x : Scored A) (xs : List (Scored A))
      → relabel (rank_in x xs) ≡ rank_in (x.0, f x.1) (relabel xs)
  unfolding rank_in
  rank_in-relabel x [] = refl
  rank_in-relabel x (y ∷ ys) = ground (arith, rank_in-relabel x ys)

  pub sort_desc-relabel : (xs : List (Scored A)) → relabel (sort_desc xs) ≡ sort_desc (relabel xs)
  unfolding sort_desc
  sort_desc-relabel [] = refl
  sort_desc-relabel (x ∷ xs) = rw (rank_in-relabel x (sort_desc xs), sort_desc-relabel xs) refl
