-- ===== src/Hnsw/Queue.antt =====
-- std::priority_queue over pairs of a float and an id: the list in the order in which the pairs
-- would be popped. Pairs compare by the float, then by the id.
use neuraldatabase.Prelude.{ℕ, Bool, not, ◌&&◌, ◌||◌, List, [], ◌∷◌, ltb, if◌then◌else◌}
use neuraldatabase.Float.{float_lt}
use neuraldatabase.Ranking.{Scored}

abbrev pub pair_lt : Scored ℕ → Scored ℕ → Bool
pair_lt a b = float_lt a.0 b.0 || (not (float_lt b.0 a.0) && ltb a.1 b.1)

-- std::priority_queue<Pair>: the largest on top
abbrev pub larger : Scored ℕ → Scored ℕ → Bool
larger a b = pair_lt b a

-- `first` says which of two pairs is popped before the other.
unfoldable pub push : (Scored ℕ → Scored ℕ → Bool) → Scored ℕ → List (Scored ℕ) → List (Scored ℕ)
push first x [] = x ∷ []
push first x (y ∷ ys) = let later = push first x ys in if first x y then x ∷ (y ∷ ys) else y ∷ later
