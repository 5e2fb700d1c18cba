-- ===== src/Hnsw/Layer/Ids.antt =====
-- src/hnsw.cpp: which ids a queue holds, and what links lead to.
use neuraldatabase.Prelude.{
  ℕ, zero, suc, ◌≤◌, ◌<◌, ◌≡◌, ◌⊎◌, refl, subst, ◌∙◌, ℕ_discrete, inl, inr, true, false, Bool, List,
  [], ◌∷◌, arith, All, Bool-cases, length, ltb, map,
}
use neuraldatabase.Ranking.{Scored, before, rank_in, sort_desc}
use neuraldatabase.Hnsw.Queue.{push}
use neuraldatabase.Hnsw.Layer.{Scratch, visited, mark, trim, drain}
use neuraldatabase.Hnsw.Layer.Results.{visited-mark_self, visited-mark_ne}
use neuraldatabase.Hnsw.Layer.Loop.{unseen}
use neuraldatabase.Hnsw.Layer.Hits.{turn}

-- an entry of the queue has this id
abbrev pub HasId : ℕ → List (Scored ℕ) → Type 0
HasId n [] = ⊥
HasId n (x ∷ xs) = (x.1 ≡ n) ⊎ HasId n xs

-- `m` is one of the nodes
abbrev pub IsIn : ℕ → List ℕ → Type 0
IsIn m [] = ⊥
IsIn m (n ∷ ns) = (n ≡ m) ⊎ IsIn m ns

-- The nodes that links lead to from `entry`.
pub data Linked (neighbours : ℕ → List ℕ) (entry : ℕ) : ℕ → Type 0 where
  here : Linked neighbours entry entry
  along :
      {n : ℕ} (m : ℕ)
      → Linked neighbours entry n
      → IsIn m (neighbours n)
      → Linked neighbours entry m

pub All-IsIn : (P : ℕ → Type 0) (m : ℕ) (ns : List ℕ) → All P ns → IsIn m ns → P m
All-IsIn P m [] h i = absurd i
All-IsIn P m (n ∷ ns) h (inl e) = subst P e h.0
All-IsIn P m (n ∷ ns) h (inr i) = All-IsIn P m ns h.1 i

pub All_of : (P : ℕ → Type 0) (ns : List ℕ) → ((m : ℕ) → IsIn m ns → P m) → All P ns
All_of P [] h = tt
All_of P (n ∷ ns) h = (h n (inl refl), All_of P ns (λ m i. h m (inr i)))

module _ (first : Scored ℕ → Scored ℕ → Bool) (x : Scored ℕ) where
  pub push-HasId_self : (xs : List (Scored ℕ)) → HasId x.1 (push first x xs)
  unfolding push
  push-HasId_self [] = inl refl
  push-HasId_self (y ∷ ys) = elim (Bool-cases (first x y)) [
    | inl e ↦ rw e (inl refl)
    | inr e ↦ rw e (inr (push-HasId_self ys))
  ]

  pub push-HasId : (n : ℕ) (xs : List (Scored ℕ)) → HasId n xs → HasId n (push first x xs)
  unfolding push
  push-HasId n [] h = absurd h
  push-HasId n (y ∷ ys) h = elim (Bool-cases (first x y)) [
    | inl e ↦ rw e (inr h)
    | inr e ↦ rw e (elim h [ inl same ↦ inl same | inr later ↦ inr (push-HasId n ys later) ])
  ]

pub trim_all : (ef : ℕ) (xs : List (Scored ℕ)) → length xs ≤ ef → trim ef xs ≡ xs
unfolding trim
trim_all ef [] h = refl
trim_all ef (x ∷ xs) h = let e : ltb ef (length (x ∷ xs)) ≡ false = ground arith in rw e refl

pub rank_in-HasId_self : (x : Scored ℕ) (xs : List (Scored ℕ)) → HasId x.1 (rank_in x xs)
unfolding rank_in
rank_in-HasId_self x [] = inl refl
rank_in-HasId_self x (y ∷ ys) = elim (Bool-cases (before y x)) [
  | inl e ↦ rw e (inr (rank_in-HasId_self x ys))
  | inr e ↦ rw e (inl refl)
]

pub rank_in-HasId :
    (n : ℕ) (x : Scored ℕ) (xs : List (Scored ℕ)) → HasId n xs → HasId n (rank_in x xs)
unfolding rank_in
rank_in-HasId n x [] h = absurd h
rank_in-HasId n x (y ∷ ys) h = elim (Bool-cases (before y x)) [
  | inl e ↦ rw e (elim h [ inl same ↦ inl same | inr later ↦ inr (rank_in-HasId n x ys later) ])
  | inr e ↦ rw e (inr h)
]

pub drain-HasId : (n : ℕ) (xs : List (Scored ℕ)) → HasId n xs → HasId n (drain xs)
unfolding drain sort_desc
drain-HasId n [] h = absurd h
drain-HasId n (x ∷ xs) (inl same) =
    subst (λ m. HasId m (rank_in (turn x) (sort_desc (map turn xs)))) same
      (rank_in-HasId_self (turn x) (sort_desc (map turn xs)))
drain-HasId n (x ∷ xs) (inr later) =
    rank_in-HasId n (turn x) (sort_desc (map turn xs)) (drain-HasId n xs later)

pub visited-mark_mono :
    (s : Scratch) (n m : ℕ)
    → n < length s.visited_buf
    → visited s m ≡ true
    → visited (mark s n) m ≡ true
visited-mark_mono s n m lt h = elim (ℕ_discrete n m) [
  | yes e ↦ subst (λ k. visited (mark s n) k ≡ true) e (visited-mark_self s n lt)
  | no e ↦ visited-mark_ne s n m e ∙ h
]

-- every node without a mark is counted
pub unseen-pos : (s : Scratch) (m n : ℕ) → m < n → visited s m ≡ false → 0 < unseen s n
unfolding unseen
unseen-pos s m zero lt h = elim lt [ ]
unseen-pos s m (suc n) lt h = elim (ℕ_discrete m n) [
  | yes e ↦ let f : visited s n ≡ false = subst (λ k. visited s k ≡ false) e h in rw f (omega arith)
  | no e ↦ omega (arith, unseen-pos s m n (omega arith) h)
]
