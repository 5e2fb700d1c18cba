-- ===== src/Tests/Hnsw.antt =====
-- Runs of src/hnsw.cpp.
use neuraldatabase.Prelude.{
  ℕ, zero, suc, ◌+◌, not, ◌&&◌, ◌<◌, ◌≤◌, ◌≡◌, refl, [], ◌∷◌, arith, All, ◌==◌, if◌then◌else◌,
  length,
}
use neuraldatabase.Float.{is_nan, float_lt, float_neg}
use neuraldatabase.Kernels.{cosine_similarity_avx2}
use neuraldatabase.Ranking.{sort_desc}
use neuraldatabase.Hnsw.State.{get_vec, links, grow, set_links, new_index}
use neuraldatabase.Hnsw.Invariant.{IsIndex}
use neuraldatabase.Hnsw.Queue.{push}
use neuraldatabase.Hnsw.Layer.{
  Scratch, next_tag, worst_of, trim, consider, scan, closed, beam_loop, start, run_beam, drain,
  node_similarity, search_layer,
}
use neuraldatabase.Hnsw.Layer.Tags.{IsScratch}
use neuraldatabase.Hnsw.Layer.Hits.{AreHits, AreNumbers, search_layer-AreHits, search_layer-scratch}
use neuraldatabase.Hnsw.Layer.Independent.{run_beam_fuel}
use neuraldatabase.Hnsw.Tombstones.{find_from, delete_vector, is_deleted, live_size}
use neuraldatabase.Hnsw.Tombstones.Marks.{
  is_known, is_deleted-delete_vector, live_size-delete_vector,
}
use neuraldatabase.Hnsw.Insert.{
  select_neighbours, append_node, closest, max_links, descend, link_back, connect_back, connect_all,
  connect_layers, raise_entry, link_node, insert,
}
use neuraldatabase.Hnsw.Insert.Preserve.{insert-IsIndex}
use neuraldatabase.Hnsw.Query.{first_live, live_entry, collect_live, search}
use neuraldatabase.Hnsw.Query.Answer.{IsAnswer, search-IsAnswer}
use neuraldatabase.Tests.Data.{toy, row, no_scratch}

unfoldable pub program : Unit {0}
unfolding cosine_similarity_avx2 float_lt float_neg is_nan sort_desc get_vec links grow set_links
    new_index push next_tag worst_of trim consider scan closed beam_loop start run_beam drain
    node_similarity search_layer find_from delete_vector is_deleted live_size select_neighbours
    append_node closest max_links descend link_back connect_back connect_all connect_layers
    raise_entry link_node insert first_live live_entry collect_live search
program = tt

search_runs : (search toy row (1 ∷ []) 1 no_scratch).0 ≡ (7, 70) ∷ []
unfolding program
search_runs = refl

row_links :
    (n lc : ℕ) → All (λ m. m < 3) (links row.graph n lc) × (length (links row.graph n lc) ≤ 2)
unfolding links
row_links zero zero = omega arith
row_links zero (suc lc) = omega arith
row_links (suc zero) zero = omega arith
row_links (suc zero) (suc lc) = omega arith
row_links (suc (suc zero)) zero = omega arith
row_links (suc (suc zero)) (suc lc) = omega arith
row_links (suc (suc (suc n))) lc = omega arith

pub row-IsIndex : IsIndex row
unfolding max_links
row-IsIndex = record {
  ids = refl;
  texts = refl;
  marks = refl;
  floats = refl;
  graph = record {
    nodes = refl;
    in_range = λ n lc. (row_links n lc).0;
    degree = λ n lc. ground (arith, row_links n lc);
  };
  entry = λ h. omega arith;
}

pub no_scratch-IsScratch : IsScratch no_scratch
no_scratch-IsScratch = record { tag_fits = omega arith; tags = tt }

pub row-AreNumbers : AreNumbers (node_similarity toy row (1 ∷ [])) 3
unfolding program
row-AreNumbers zero h = record { word = omega arith; no_nan = refl }
row-AreNumbers (suc zero) h = record { word = omega arith; no_nan = refl }
row-AreNumbers (suc (suc zero)) h = record { word = omega arith; no_nan = refl }
row-AreNumbers (suc (suc (suc n))) h = absurd (omega arith)

search-IsAnswer_example : IsAnswer toy row (1 ∷ []) 2 (search toy row (1 ∷ []) 2 no_scratch).0
search-IsAnswer_example =
    search-IsAnswer toy row (1 ∷ []) 2 no_scratch (omega arith) (omega arith) row-IsIndex
      row-AreNumbers no_scratch-IsScratch

search_layer-AreHits_example :
    AreHits
      (node_similarity toy row (1 ∷ []))
      3
      2
      (search_layer toy row (1 ∷ []) 0 2 0 no_scratch).0
search_layer-AreHits_example =
    search_layer-AreHits toy row (1 ∷ []) 0 2 0 no_scratch (omega arith) row-IsIndex.graph.in_range
      (omega arith) no_scratch-IsScratch row-AreNumbers

-- a thread whose tag is about to wrap
wrapping : Scratch
wrapping = record { visited_buf = 65535 ∷ 0 ∷ 65535 ∷ []; visit_tag = 65535 }

wrapping-IsScratch : IsScratch wrapping
unfolding wrapping
wrapping-IsScratch = record { tag_fits = omega arith; tags = omega arith }

search_layer-scratch_example :
    (search_layer toy row (1 ∷ []) 0 2 0 no_scratch).0
    ≡ (search_layer toy row (1 ∷ []) 0 2 0 wrapping).0
search_layer-scratch_example =
    search_layer-scratch toy row (1 ∷ []) 0 2 0 no_scratch (omega arith) row-IsIndex.graph.in_range
      (omega arith) no_scratch-IsScratch wrapping wrapping-IsScratch

run_beam_fuel_example :
    run_beam (node_similarity toy row (1 ∷ [])) (λ n. links row.graph n 0) 2 3 0 no_scratch
    ≡ beam_loop
        (node_similarity toy row (1 ∷ []))
        (λ n. links row.graph n 0)
        2
        9
        (start
          (node_similarity toy row (1 ∷ []))
          (λ n. links row.graph n 0)
          2
          0
          (next_tag 3 no_scratch))
run_beam_fuel_example =
    run_beam_fuel (node_similarity toy row (1 ∷ [])) (λ n. links row.graph n 0) 2 3 (omega arith)
      (λ n _. row-IsIndex.graph.in_range n 0) 0 9 no_scratch (omega arith) no_scratch-IsScratch
      (omega arith)

insert-IsIndex_example :
    IsIndex (insert toy row 80 (8 ∷ []) [] 1 no_scratch).0
    × IsScratch (insert toy row 80 (8 ∷ []) [] 1 no_scratch).1
insert-IsIndex_example =
    insert-IsIndex toy row 80 (8 ∷ []) [] 1 no_scratch (omega arith) no_scratch-IsScratch
      row-IsIndex (omega arith)

is_deleted-delete_vector_example :
    is_deleted (delete_vector row 60) 60 ≡ (if 60 == 60 then is_known row 60 else is_deleted row 60)
is_deleted-delete_vector_example = is_deleted-delete_vector row 60 60 row-IsIndex

live_size-delete_vector_example :
    live_size (delete_vector row 60) + (if is_known row 60 && not (is_deleted row 60) then 1 else 0)
    ≡ live_size row
live_size-delete_vector_example = live_size-delete_vector row 60 row-IsIndex
