-- ===== src/Tests/VectorStore.antt =====
-- Runs of src/vector_store.cpp.
use neuraldatabase.Prelude.{
  map, ℕ, ◌≡◌, refl, inl, ◌&&◌, Bool, false, List, [], ◌∷◌, arith, length, min, ◌==◌,
}
use neuraldatabase.Float.{is_nan, float_lt}
use neuraldatabase.Kernels.{cosine_similarity_avx2}
use neuraldatabase.VectorStore.{
  insert, delete_vector, compact, live_size, similarity, search, search_filtered,
}
use neuraldatabase.VectorStore.Search.{is_live, best, HasSimilarities, length-search}
use neuraldatabase.VectorStore.Optimal.{
  HasNumbers, IsOptimal, search-IsOptimal, search_filtered-IsOptimal,
}
use neuraldatabase.VectorStore.Deletion.{
  HasDistinctIds, is_other, search-compact, search-delete_vector, delete_reinserted,
}
use neuraldatabase.Tests.Data.{toy, flat, query}

program : Unit {0}
unfolding cosine_similarity_avx2 float_lt is_nan similarity search search_filtered
program = tt

search_runs : search toy flat query 1 ≡ record { id = 9; score = 7; metadata = 65 ∷ [] } ∷ []
unfolding program
search_runs = refl

flat-HasSimilarities : HasSimilarities toy flat query
unfolding program
flat-HasSimilarities = ((λ _. refl), ((λ _. refl), ((λ _. refl), tt)))

flat-HasNumbers : HasNumbers toy flat query 1 is_live
unfolding program
flat-HasNumbers = (
  record { word = omega arith; no_nan = refl },
  (record { word = omega arith; no_nan = refl }, tt),
)

flat-HasDistinctIds : HasDistinctIds flat.vectors
flat-HasDistinctIds = omega arith

search-IsOptimal_example :
    IsOptimal is_live (similarity toy flat query) flat.vectors 1 (search toy flat query 1)
search-IsOptimal_example = search-IsOptimal toy flat query 1 flat-HasSimilarities flat-HasNumbers

-- the texts that start with an A
starts_a : List ℕ → Bool
starts_a [] = false
starts_a (c ∷ _) = c == 65

search_filtered-IsOptimal_example :
    IsOptimal
      (λ v. is_live v && starts_a v.metadata)
      (similarity toy flat query)
      flat.vectors
      1
      (search_filtered toy flat query 1 starts_a)
unfolding program starts_a
search_filtered-IsOptimal_example =
    search_filtered-IsOptimal toy flat query 1 starts_a
      ((λ _. refl), ((λ _. refl), ((λ _. refl), tt))) flat-HasNumbers

length-search_example : length (search toy flat query 5) ≡ min 5 (live_size flat)
length-search_example = length-search toy flat query 5 flat-HasSimilarities

search-compact_example :
    map (λ r. r.score) (search toy (compact flat) query 2)
    ≡ map (λ r. r.score) (search toy flat query 2)
search-compact_example = search-compact toy flat query 2 flat-HasSimilarities

search-delete_vector_example :
    search toy (delete_vector flat 9) query 2
    ≡ best (is_other 9) (similarity toy flat query) flat.vectors 2
search-delete_vector_example =
    search-delete_vector toy flat query 2 9 flat-HasDistinctIds flat-HasSimilarities

delete_reinserted_example :
    delete_vector (insert (delete_vector flat 7) 7 query []) 7
    ≡ insert (delete_vector flat 7) 7 query []
delete_reinserted_example = delete_reinserted flat 7 query [] (inl refl)
