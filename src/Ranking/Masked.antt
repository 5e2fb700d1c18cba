-- ===== src/Ranking/Masked.antt =====
-- Ranking with the entries that do not count at minus infinity is ranking those that count, with
-- the others behind them.
use neuraldatabase.Prelude.{
  ℕ, zero, suc, ◌≡◌, refl, inl, inr, Bool, true, false, List, [], ◌∷◌, ◌++◌, map, arith, All,
  Bool-cases, keep, take, ◌==◌, if◌then◌else◌,
}
use neuraldatabase.Float.{Float, float_lt, neg_infinity}
use neuraldatabase.Ranking.{Scored, rank_in, sort_desc}
use neuraldatabase.Ranking.Sorted.{All-sort_desc}

-- above minus infinity, and so no NaN
abbrev pub IsScore : Float → Type 0
IsScore x = float_lt neg_infinity x ≡ true

IsScore-ne : (x : Float) → IsScore x → (x == neg_infinity) ≡ false
unfolding float_lt
IsScore-ne x h = ground arith

module _ {A : Type 0} where
  abbrev pub Counts : Scored A → Type 0
  Counts x = IsScore x.0

  abbrev pub IsDead : Scored A → Type 0
  IsDead x = x.0 ≡ neg_infinity

  -- the loop that collects results stops at the first score of minus infinity
  unfoldable pub until_dead : List (Scored A) → List (Scored A)
  until_dead [] = []
  until_dead (x ∷ xs) = let rest = until_dead xs in if x.0 == neg_infinity then [] else x ∷ rest

  rank_in_live :
      (x : Scored A) (live dead : List (Scored A))
      → Counts x
      → All IsDead dead
      → rank_in x (live ++ dead) ≡ rank_in x live ++ dead
  unfolding rank_in float_lt
  rank_in_live x [] [] h k = refl
  rank_in_live x [] (d ∷ dead) h k = ground arith
  rank_in_live x (y ∷ live) dead h k = ground (arith, rank_in_live x live dead h k)

  rank_in_dead :
      (x : Scored A) (live dead : List (Scored A))
      → IsDead x
      → All Counts live
      → All IsDead dead
      → rank_in x (live ++ dead) ≡ live ++ x ∷ dead
  unfolding rank_in float_lt
  rank_in_dead x [] [] h k l = refl
  rank_in_dead x [] (d ∷ dead) h k l = ground arith
  rank_in_dead x (y ∷ live) dead h k l = ground (arith, rank_in_dead x live dead h k.1 l)

  pub until_dead-take :
      (n : ℕ) (live dead : List (Scored A))
      → All Counts live
      → All IsDead dead
      → until_dead (take n (live ++ dead)) ≡ take n live
  unfolding until_dead
  until_dead-take zero live dead h k = refl
  until_dead-take (suc n) [] [] h k = refl
  until_dead-take (suc n) [] (d ∷ dead) h k = ground arith
  until_dead-take (suc n) (x ∷ live) dead h k =
      ground (arith, IsScore-ne x.0 h.0, until_dead-take n live dead h.1 k)

module _ {A : Type 0} (counts : A → Bool) (score : A → Float) where
  abbrev pub masked : A → Scored A
  masked a = (if counts a then score a else neg_infinity, a)

  abbrev pub scored : A → Scored A
  scored a = (score a, a)

  -- whatever counts has a score above minus infinity
  abbrev pub HasScore : A → Type 0
  HasScore a = counts a ≡ true → IsScore (score a)

  pub All-Counts : (xs : List A) → All HasScore xs → All Counts (map scored (keep counts xs))
  All-Counts [] h = tt
  All-Counts (x ∷ xs) h = elim (Bool-cases (counts x)) [
    | inl e ↦ rw e (h.0 e, All-Counts xs h.1)
    | inr e ↦ rw e (All-Counts xs h.1)
  ]

  pub record Behind (xs : List A) : Type 0 where
    pub dead : List (Scored A)
    pub are_dead : All IsDead dead
    pub split : sort_desc (map masked xs) ≡ sort_desc (map scored (keep counts xs)) ++ dead

  pub sort_desc-masked : (xs : List A) → All HasScore xs → Behind xs
  unfolding sort_desc
  sort_desc-masked [] h = record { dead = []; are_dead = tt; split = refl }
  sort_desc-masked (x ∷ xs) h =
      let b = sort_desc-masked xs h.1 in
      let live = sort_desc (map scored (keep counts xs)) in
      elim (Bool-cases (counts x)) [
        | inl e ↦ record {
          dead = b.dead;
          are_dead = b.are_dead;
          split = rw (e, b.split) (rank_in_live (scored x) live b.dead (h.0 e) b.are_dead);
        }
        | inr e ↦ record {
          dead = (neg_infinity, x) ∷ b.dead;
          are_dead = (refl, b.are_dead);
          split =
              rw (e, b.split)
                (rank_in_dead (neg_infinity, x) live b.dead refl
                  (All-sort_desc Counts (map scored (keep counts xs)) (All-Counts xs h.1))
                  b.are_dead);
        }
      ]

  -- The best `n` of a masked ranking, as far as they count, are the best `n` of those that count.
  pub until_dead-masked :
      (n : ℕ) (xs : List A)
      → All HasScore xs
      → until_dead (take n (sort_desc (map masked xs)))
        ≡ take n (sort_desc (map scored (keep counts xs)))
  until_dead-masked n xs h =
      let b = sort_desc-masked xs h in
      let live = map scored (keep counts xs) in
      rw b.split (
        until_dead-take n (sort_desc live) b.dead (All-sort_desc Counts live (All-Counts xs h))
          b.are_dead)
