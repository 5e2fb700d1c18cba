-- ===== src/Tests/Bindings.antt =====
-- Runs of python/bindings.cpp.
use neuraldatabase.Prelude.{zero, suc, arith, ◌≡◌, refl, some, [], ◌∷◌, map, take, keep}
use neuraldatabase.Filter.{evaluate_filter}
use neuraldatabase.Hnsw.Query
use neuraldatabase.Hnsw.Insert.{insert}
use neuraldatabase.Hnsw.Tombstones.{find_from}
use neuraldatabase.Bindings.{meta_of, search}
use neuraldatabase.Bindings.Results.{own_hit, own_text, HasDistinctIds, search-take, meta_of-insert}
use neuraldatabase.Tests.Data.{toy, row, no_scratch}
use neuraldatabase.Tests.Filter.{json, condition, clause, condition_parses}
use neuraldatabase.Tests.Hnsw.{row-IsIndex, row-AreNumbers, no_scratch-IsScratch}
use neuraldatabase.Hnsw.Query.Answer.{IsAnswer}

row-HasDistinctIds : HasDistinctIds row.id_map 3
row-HasDistinctIds zero zero li lj e = refl
row-HasDistinctIds (suc zero) (suc zero) li lj e = refl
row-HasDistinctIds (suc (suc zero)) (suc (suc zero)) li lj e = refl
row-HasDistinctIds zero (suc zero) li lj e = absurd (omega arith)
row-HasDistinctIds zero (suc (suc zero)) li lj e = absurd (omega arith)
row-HasDistinctIds (suc zero) zero li lj e = absurd (omega arith)
row-HasDistinctIds (suc zero) (suc (suc zero)) li lj e = absurd (omega arith)
row-HasDistinctIds (suc (suc zero)) zero li lj e = absurd (omega arith)
row-HasDistinctIds (suc (suc zero)) (suc zero) li lj e = absurd (omega arith)
row-HasDistinctIds (suc (suc (suc i))) j li lj e = absurd (omega arith)
row-HasDistinctIds i (suc (suc (suc j))) li lj e = absurd (omega arith)

search-take_example :
    (found : IsAnswer toy row (1 ∷ []) 4 (Query.search toy row (1 ∷ []) 4 no_scratch).0) × (search
        json toy row
        (1 ∷ [])
        1
        (some condition)
        no_scratch
      ≡ some (
          map
            (own_hit row)
            (take 1 (keep (λ x. evaluate_filter json (own_text row x) clause) found.chosen))))
search-take_example =
    search-take json toy row (1 ∷ []) 1 condition clause no_scratch condition_parses (omega arith)
      (omega arith) row-IsIndex row-HasDistinctIds row-AreNumbers no_scratch-IsScratch

row_has : find_from row.id_map 60 0 row.num_vectors ≡ some 1
unfolding find_from
row_has = refl

meta_of-insert_example :
    meta_of (insert toy row 60 (8 ∷ []) (65 ∷ []) 0 no_scratch).0 60 ≡ meta_of row 60
meta_of-insert_example =
    meta_of-insert toy row 60 1 (8 ∷ []) (65 ∷ []) 0 no_scratch row-IsIndex row_has
