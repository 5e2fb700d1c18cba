-- ===== src/VectorStore/Search.antt =====
-- src/vector_store.cpp: the searches return the best of the vectors that count, and no other.
use neuraldatabase.Prelude.{
  ℕ, zero, suc, ◌+◌, ◌≡◌, refl, ap, ◌∙◌, Bool, not, ◌&&◌, List, [], ◌∷◌, ◌++◌, map, arith, take-min,
  All, length, get_or, take, keep, min, take-map, length-map, length-append, length-take,
  append_assoc,
}
use neuraldatabase.Float.{Float}
use neuraldatabase.Kernels.{Arith}
use neuraldatabase.Ranking.{Scored, sort_desc}
use neuraldatabase.Ranking.Sorted.{relabel, sort_desc-relabel, length-sort_desc}
use neuraldatabase.Ranking.Masked.{masked, scored, HasScore, until_dead, until_dead-masked}
use neuraldatabase.VectorStore.{
  Vector, SearchResult, FlatIndex, live_size, scores_from, collect, search_where, similarity,
  search, no_vector,
}

abbrev pub result_of : Scored Vector → SearchResult
result_of x = record { id = (x.1).id; score = x.0; metadata = (x.1).metadata }

-- The specification: rank the vectors that count, and take the first `k`.
unfoldable pub best : (Vector → Bool) → (Vector → Float) → List Vector → ℕ → List SearchResult
best counts similarity vectors k =
    map result_of (take k (sort_desc (map (scored counts similarity) (keep counts vectors))))

get_or-append :
    (before after : List Vector) (v d : Vector) → get_or (before ++ v ∷ after) (length before) d ≡ v
get_or-append [] after v d = refl
get_or-append (x ∷ before) after v d = get_or-append before after v d

module _ (counts : Vector → Bool) (similarity : Vector → Float) where
  -- an index stands for the vector at that place
  relabel-scores_from :
      (before vs vectors : List Vector) (i : ℕ)
      → i ≡ length before
      → before ++ vs ≡ vectors
      → relabel (λ j. get_or vectors j no_vector) (scores_from counts similarity i vs)
        ≡ map (masked counts similarity) vs
  unfolding scores_from
  relabel-scores_from before [] vectors i e h = refl
  relabel-scores_from before (v ∷ vs) vectors i e h =
      let here : get_or vectors i no_vector ≡ v =
        rw (e, ← h) (get_or-append before vs v no_vector) in
      rw here (
        ap (◌∷◌ (masked counts similarity v)) (
          relabel-scores_from (before ++ v ∷ []) vs vectors (i + 1)
            (omega (arith, e, length-append before (v ∷ [])))
            (append_assoc before (v ∷ []) vs ∙ h)))

  collect-until_dead :
      (vectors : List Vector) (xs : List (Scored ℕ))
      → collect vectors xs
        ≡ map result_of (until_dead (relabel (λ j. get_or vectors j no_vector) xs))
  unfolding collect until_dead
  collect-until_dead vectors [] = refl
  collect-until_dead vectors (x ∷ xs) = ground (arith, collect-until_dead vectors xs)

  scores_from-masked :
      (vs : List Vector)
      → relabel (λ j. get_or vs j no_vector) (scores_from counts similarity 0 vs)
        ≡ map (masked counts similarity) vs
  scores_from-masked vs = relabel-scores_from [] vs vs 0 refl refl

  length-scores_from :
      (i : ℕ) (vs : List Vector) → length (scores_from counts similarity i vs) ≡ length vs
  unfolding scores_from
  length-scores_from i [] = refl
  length-scores_from i (v ∷ vs) = ap suc (length-scores_from (i + 1) vs)

  collect-best :
      (k : ℕ) (vs : List Vector)
      → All (HasScore counts similarity) vs
      → collect vs (take (min k (length vs)) (sort_desc (scores_from counts similarity 0 vs)))
        ≡ best counts similarity vs k
  unfolding best
  collect-best k vs h =
      let scores = scores_from counts similarity 0 vs in
      let at = λ (j : ℕ). get_or vs j no_vector in
      let n : length (sort_desc scores) ≡ length vs =
        length-sort_desc scores ∙ length-scores_from 0 vs in
      rw
        (
          collect-until_dead vs (take (min k (length vs)) (sort_desc scores)),
          ← n,
          take-min k (sort_desc scores),
          ← take-map {B = Scored Vector} (λ x. (x.0, at x.1)) k (sort_desc scores),
          sort_desc-relabel at scores,
          scores_from-masked vs,
          until_dead-masked counts similarity k vs h,
        )
        refl

  -- The results are as many as `k` and the vectors that count allow.
  pub length-best :
      (k : ℕ) (vs : List Vector)
      → length (best counts similarity vs k) ≡ min k (length (keep counts vs))
  unfolding best
  length-best k vs =
      let ranked = sort_desc (map (scored counts similarity) (keep counts vs)) in
      length-map result_of (take k ranked)
      ∙ omega (
        arith,
        length-take k ranked,
        length-sort_desc (map (scored counts similarity) (keep counts vs)),
        length-map (scored counts similarity) (keep counts vs),
      )

  -- The loops compute the best of the vectors that count.
  pub search_where-best :
      (k : ℕ) (vs : List Vector)
      → All (HasScore counts similarity) vs
      → search_where counts similarity vs k ≡ best counts similarity vs k
  unfolding search_where
  search_where-best zero [] h = unfold best sort_desc in refl
  search_where-best (suc k) [] h = unfold best sort_desc in refl
  search_where-best k (v ∷ vs) h = collect-best k (v ∷ vs) h

abbrev pub is_live : Vector → Bool
is_live v = not v.deleted

pub keep_again : (p : Vector → Bool) (vs : List Vector) → keep p (keep p vs) ≡ keep p vs
keep_again p [] = refl
keep_again p (v ∷ vs) = ground (arith, keep_again p vs)

keep_both :
    (p q : Vector → Bool) (vs : List Vector)
    → keep (λ v. p v && q v) (keep p vs) ≡ keep (λ v. p v && q v) vs
keep_both p q [] = refl
keep_both p q (v ∷ vs) = ground (arith, keep_both p q vs)

module _ (ops : Arith Float) (index : FlatIndex) (query : List Float) where
  -- every live vector has a similarity above minus infinity
  abbrev pub HasSimilarities : Type 0
  HasSimilarities = All (HasScore is_live (similarity ops index query)) index.vectors

  -- `search` returns the `k` live vectors most similar to the query, the best first.
  pub search-best :
      (k : ℕ)
      → HasSimilarities
      → search ops index query k ≡ best is_live (similarity ops index query) index.vectors k
  unfolding search
  search-best k h = search_where-best is_live (similarity ops index query) k index.vectors h

  -- It returns `k` results, or all that are live if these are fewer.
  pub length-search :
      (k : ℕ) → HasSimilarities → length (search ops index query k) ≡ min k (live_size index)
  unfolding live_size
  length-search k h =
      rw (search-best k h) (length-best is_live (similarity ops index query) k index.vectors)
