-- ===== src/Tests/Exact.antt =====
-- Searches of src/hnsw.cpp with a beam as wide as the index.
use neuraldatabase.Prelude.{ℕ, zero, suc, ◌<◌, ◌≡◌, refl, true, [], ◌∷◌, arith, inl, inr}
use neuraldatabase.Hnsw.State.{HnswIndex, links}
use neuraldatabase.Hnsw.Invariant.{IsIndex}
use neuraldatabase.Hnsw.Layer.{node_similarity, search_layer}
use neuraldatabase.Hnsw.Layer.Hits.{AreNumbers}
use neuraldatabase.Hnsw.Layer.Ids.{HasId, Linked, here, along}
use neuraldatabase.Hnsw.Layer.Reached.{search_layer-HasId}
use neuraldatabase.Hnsw.Insert.{max_links}
use neuraldatabase.Hnsw.Query.{search}
use neuraldatabase.Hnsw.Query.Answer.{is_live}
use neuraldatabase.Hnsw.Query.Exact.{IsExact, search-IsExact}
use neuraldatabase.Tests.Data.{toy, row, config, no_scratch}
use neuraldatabase.Tests.Hnsw.{program, row-IsIndex, no_scratch-IsScratch}

-- The three nodes in a row, with a beam of three.
abbrev wide : HnswIndex
wide = record row { cfg = record config { ef_search = 3 } }

wide-IsIndex : IsIndex wide
unfolding max_links
wide-IsIndex = record {
  ids = refl;
  texts = refl;
  marks = refl;
  floats = refl;
  graph = record {
    nodes = refl;
    in_range = (row-IsIndex.graph).in_range;
    degree = λ n lc. ground (arith, (row-IsIndex.graph).degree n lc);
  };
  entry = λ h. omega arith;
}

wide-AreNumbers : AreNumbers (node_similarity toy wide (1 ∷ [])) 3
unfolding program
wide-AreNumbers zero h = record { word = omega arith; no_nan = refl }
wide-AreNumbers (suc zero) h = record { word = omega arith; no_nan = refl }
wide-AreNumbers (suc (suc zero)) h = record { word = omega arith; no_nan = refl }
wide-AreNumbers (suc (suc (suc n))) h = absurd (omega arith)

middle : (ep : ℕ) → ep < 3 → Linked (λ m. links wide.graph m 0) ep 1
unfolding links
middle zero h = along 1 here (inl refl)
middle (suc zero) h = here
middle (suc (suc zero)) h = along 1 here (inl refl)
middle (suc (suc (suc n))) h = absurd (omega arith)

wide-Linked :
    (ep n : ℕ) → ep < 3 → n < 3 → is_live wide n ≡ true → Linked (λ m. links wide.graph m 0) ep n
unfolding links
wide-Linked ep zero h k l = cc
wide-Linked ep (suc zero) h k l = middle ep h
wide-Linked ep (suc (suc zero)) h k l = along 2 (middle ep h) (inr (inl refl))
wide-Linked ep (suc (suc (suc n))) h k l = absurd (omega arith)

search_layer-HasId_example : HasId 2 (search_layer toy wide (1 ∷ []) 0 3 0 no_scratch).0
search_layer-HasId_example =
    search_layer-HasId toy wide (1 ∷ []) 0 3 0 no_scratch (omega arith)
      (wide-IsIndex.graph).in_range (omega arith) no_scratch-IsScratch 2 (omega arith)
      (wide-Linked 0 2 (omega arith) (omega arith) refl)

search-IsExact_example : IsExact toy wide (1 ∷ []) 2 (search toy wide (1 ∷ []) 2 no_scratch).0
search-IsExact_example =
    search-IsExact toy wide (1 ∷ []) 2 no_scratch (omega arith) (omega arith) (omega arith)
      wide-Linked wide-IsIndex wide-AreNumbers no_scratch-IsScratch
