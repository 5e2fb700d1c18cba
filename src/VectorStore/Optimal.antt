-- ===== src/VectorStore/Optimal.antt =====
-- src/vector_store.cpp: what the searches promise, with no word of how they sort.
use mathlib.Core.List.{Perm}
use neuraldatabase.Prelude.{
  ℕ, ◌≡◌, refl, Bool, ◌&&◌, List, ◌++◌, map, arith, All, length, take, drop, keep, min,
  take-append-drop, length-map, length-take,
}
use neuraldatabase.Float.{Float}
use neuraldatabase.Kernels.{Arith}
use neuraldatabase.Ranking.{Scored, sort_desc}
use neuraldatabase.Ranking.Sorted.{
  HasNumber, IsTop, IsDescending, IsDescending-take, IsTop-drop, sort_desc-IsDescending,
  sort_desc-perm, length-sort_desc,
}
use neuraldatabase.Ranking.Masked.{scored, HasScore}
use neuraldatabase.VectorStore.{
  Vector, SearchResult, FlatIndex, similarity, search, search_filtered,
}
use neuraldatabase.VectorStore.Search.{result_of, is_live, best, search_where-best, HasSimilarities}

module _ (counts : Vector → Bool) (similarity : Vector → Float) (vectors : List Vector)
    (k : ℕ) where
  -- The vectors that count, with their scores, fall into the chosen and the rest.
  pub record IsOptimal (results : List SearchResult) : Type 0 where
    pub chosen : List (Scored Vector)
    pub rest : List (Scored Vector)
    pub all_that_count :
        Perm (chosen ++ rest) (map (scored counts similarity) (keep counts vectors))
    pub size : length chosen ≡ min k (length (keep counts vectors))
    pub reported : results ≡ map result_of chosen
    pub in_order : IsDescending chosen
    pub none_better : All (λ c. IsTop c rest) chosen

  pub best-IsOptimal :
      All HasNumber (map (scored counts similarity) (keep counts vectors))
      → IsOptimal (best counts similarity vectors k)
  unfolding best
  best-IsOptimal h =
      let live = map (scored counts similarity) (keep counts vectors) in
      let ranked = sort_desc live in
      let d = sort_desc-IsDescending live h in
      record {
        chosen = take k ranked;
        rest = drop k ranked;
        all_that_count = rw (take-append-drop k ranked) (sort_desc-perm live);
        size = omega (
          arith,
          length-take k ranked,
          length-sort_desc live,
          length-map (scored counts similarity) (keep counts vectors),
        );
        reported = refl;
        in_order = IsDescending-take k ranked d;
        none_better = IsTop-drop k ranked d;
      }

module _ (ops : Arith Float) (index : FlatIndex) (query : List Float) (k : ℕ) where
  -- The similarities of the live vectors are numbers.
  abbrev pub HasNumbers : (Vector → Bool) → Type 0
  HasNumbers counts =
      All HasNumber (map (scored counts (similarity ops index query)) (keep counts index.vectors))

  -- `search` finds the best live vectors.
  pub search-IsOptimal :
      HasSimilarities ops index query
      → HasNumbers is_live
      → IsOptimal is_live (similarity ops index query) index.vectors k (search ops index query k)
  unfolding search
  search-IsOptimal h n =
      rw (search_where-best is_live (similarity ops index query) k index.vectors h)
        (best-IsOptimal is_live (similarity ops index query) index.vectors k n)

  -- `search_filtered` finds the best of the live vectors whose metadata pass the filter.
  pub search_filtered-IsOptimal :
      (filter_fn : List ℕ → Bool)
      → All
          (HasScore (λ v. is_live v && filter_fn v.metadata) (similarity ops index query))
          index.vectors
      → HasNumbers (λ v. is_live v && filter_fn v.metadata)
      → IsOptimal
          (λ v. is_live v && filter_fn v.metadata)
          (similarity ops index query)
          index.vectors
          k
          (search_filtered ops index query k filter_fn)
  unfolding search_filtered
  search_filtered-IsOptimal filter_fn h n =
      let counts = λ (v : Vector). is_live v && filter_fn v.metadata in
      rw (search_where-best counts (similarity ops index query) k index.vectors h)
        (best-IsOptimal counts (similarity ops index query) index.vectors k n)
