-- ===== src/VectorStore/Deletion.antt =====
-- src/vector_store.cpp: deletion and compaction, as the searches show them.
use neuraldatabase.Prelude.{
  ℕ, ◌≡◌, ◌≢◌, refl, subst, ap, ◌∙◌, sym, ◌⊎◌, inl, inr, Bool, not, ◌&&◌, List, [], ◌∷◌, ◌++◌, ◌==◌,
  arith, All, All-keep, keep, map, Bool-cases,
}
use neuraldatabase.Float.{Float}
use neuraldatabase.Kernels.{Arith}
use neuraldatabase.Ranking.Masked.{HasScore}
use neuraldatabase.VectorStore.{
  Vector, FlatIndex, insert, mark_first, delete_vector, compact, similarity, search,
}
use neuraldatabase.VectorStore.Search.{is_live, best, search-best, HasSimilarities, keep_again}

-- No two vectors have one id.
abbrev pub HasDistinctIds : List Vector → Type 0
HasDistinctIds [] = Unit
HasDistinctIds (v ∷ vs) = All (λ w. w.id ≢ v.id) vs × HasDistinctIds vs

abbrev pub is_other : ℕ → Vector → Bool
is_other id v = is_live v && not (v.id == id)

keep_absent :
    (id : ℕ) (vs : List Vector) → All (λ w. w.id ≢ id) vs → keep (is_other id) vs ≡ keep is_live vs
keep_absent id [] h = refl
keep_absent id (v ∷ vs) h = ground (arith, keep_absent id vs h.1)

-- Among distinct ids, a deletion takes the id out of the live vectors and nothing else.
pub live-mark_first :
    (id : ℕ) (vs : List Vector)
    → HasDistinctIds vs
    → keep is_live (mark_first id vs) ≡ keep (is_other id) vs
unfolding mark_first
live-mark_first id [] h = refl
live-mark_first id (v ∷ vs) h = elim (Bool-cases (v.id == id)) [
  | inl e ↦
      let p : v.id ≡ id = ground arith in
      let q : All (λ w. w.id ≢ id) vs = subst (λ x. All (λ w. w.id ≢ x) vs) p h.0 in
      ground (arith, keep_absent id vs q)
  | inr e ↦ ground (arith, live-mark_first id vs h.1)
]

module _ (similarity : Vector → Float) where
  best-keep :
      (vs : List Vector) (k : ℕ)
      → best is_live similarity (keep is_live vs) k ≡ best is_live similarity vs k
  unfolding best
  best-keep vs k = rw (keep_again is_live vs) refl

  best-mark_first :
      (id : ℕ) (vs : List Vector) (k : ℕ)
      → HasDistinctIds vs
      → best is_live similarity (mark_first id vs) k ≡ best (is_other id) similarity vs k
  unfolding best
  best-mark_first id vs k h = rw (live-mark_first id vs h) refl

  HasScore-mark_first :
      (id : ℕ) (vs : List Vector)
      → All (HasScore is_live similarity) vs
      → All (HasScore is_live similarity) (mark_first id vs)
  unfolding mark_first
  HasScore-mark_first id [] h = tt
  HasScore-mark_first id (v ∷ vs) h = elim (Bool-cases (v.id == id)) [
    | inl e ↦ rw e ((λ never. cc), h.1)
    | inr e ↦ rw e (h.0, HasScore-mark_first id vs h.1)
  ]

module _ (ops : Arith Float) (index : FlatIndex) (query : List Float) (k : ℕ) where
  -- Where the live vectors have similarities above minus infinity, compaction does not change the
  -- scores that a search returns, in their order.
  pub search-compact :
      HasSimilarities ops index query
      → map (λ r. r.score) (search ops (compact index) query k)
        ≡ map (λ r. r.score) (search ops index query k)
  unfolding compact similarity
  search-compact h = ap (map (λ r. r.score)) (
      search-best ops (compact index) query k
        (All-keep (HasScore is_live (similarity ops index query)) is_live index.vectors h)
      ∙ best-keep (similarity ops index query) index.vectors k
      ∙ sym (search-best ops index query k h))

  -- After a deletion, a search ranks the live vectors of every other id, and only these.
  pub search-delete_vector :
      (id : ℕ)
      → HasDistinctIds index.vectors
      → HasSimilarities ops index query
      → search ops (delete_vector index id) query k
        ≡ best (is_other id) (similarity ops index query) index.vectors k
  unfolding delete_vector similarity
  search-delete_vector id d h =
      search-best ops (delete_vector index id) query k
        (HasScore-mark_first (similarity ops index query) id index.vectors h)
      ∙ best-mark_first (similarity ops index query) id index.vectors k d

-- The vectors of an id that was inserted again.
abbrev pub Holds : ℕ → List Vector → Type 0
Holds id [] = ⊥
Holds id (v ∷ vs) = (v.id ≡ id) ⊎ Holds id vs

mark_first_again :
    (id : ℕ) (vs more : List Vector)
    → Holds id vs
    → mark_first id (mark_first id vs ++ more) ≡ mark_first id vs ++ more
unfolding mark_first
mark_first_again id [] more h = absurd h
mark_first_again id (v ∷ vs) more h = elim (Bool-cases (v.id == id)) [
  | inl e ↦ ground arith
  | inr e ↦ ground (arith, mark_first_again id vs more)
]

-- A vector whose id was deleted before and inserted again cannot be deleted.
pub delete_reinserted :
    (index : FlatIndex) (id : ℕ) (vec : List Float) (metadata : List ℕ)
    → Holds id index.vectors
    → delete_vector (insert (delete_vector index id) id vec metadata) id
      ≡ insert (delete_vector index id) id vec metadata
unfolding delete_vector insert
delete_reinserted index id vec metadata h =
    ap (λ vs. record index { vectors = vs }) (mark_first_again id index.vectors _ h)
