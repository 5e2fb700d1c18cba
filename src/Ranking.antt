-- ===== src/Ranking.antt =====
-- The ranking that the indexes share: `std::sort` and `std::partial_sort` by descending score,
-- `[](a, b){ return a.first > b.first; }`. The standard leaves the order of equal scores open;
-- here they keep the order that they come in.
pub mod Sorted
pub mod Masked
use neuraldatabase.Prelude.{Bool, true, false, List, [], ◌∷◌, if◌then◌else◌}
use neuraldatabase.Float.{Float, float_lt}

abbrev pub Scored : Type 0 → Type 0
Scored A = Float × A

-- the comparison function of the calls: `a` goes before `b`
abbrev pub before : {A : Type 0} → Scored A → Scored A → Bool
before a b = float_lt b.0 a.0

unfoldable pub rank_in : {A : Type 0} → Scored A → List (Scored A) → List (Scored A)
rank_in x [] = x ∷ []
rank_in x (y ∷ ys) = let later = rank_in x ys in if before y x then y ∷ later else x ∷ (y ∷ ys)

unfoldable pub sort_desc : {A : Type 0} → List (Scored A) → List (Scored A)
unfolding rank_in
sort_desc [] = []
sort_desc (x ∷ xs) = rank_in x (sort_desc xs)
