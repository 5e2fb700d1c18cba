-- ===== src/Tests/HnswFiles.antt =====
-- Runs of src/hnsw.cpp: its files.
use neuraldatabase.Prelude.{◌≡◌, arith, true, false, none, some, [], ◌∷◌}
use neuraldatabase.Hnsw.State.{HnswIndex, new_index}
use neuraldatabase.Hnsw.Invariant.{IsIndex}
use neuraldatabase.Hnsw.Storage.{saved_bytes, loaded, load}
use neuraldatabase.Hnsw.Storage.RoundTrip.{IsStorable, load-saved_bytes}
use neuraldatabase.Hnsw.Compact.{Opens, compacted, compact}
use neuraldatabase.Hnsw.Compact.Order.{IsSafe, compact-IsSafe}
use neuraldatabase.Hnsw.Compact.Live.{IsExtended, live_nodes, compacted-IsExtended}
use neuraldatabase.Tests.Data.{toy, config, row, no_scratch}
use neuraldatabase.Tests.Hnsw.{row-IsIndex, no_scratch-IsScratch}

pub row-IsStorable : IsStorable row
row-IsStorable = record {
  dim_fits = omega arith;
  count_fits = omega arith;
  layer_fits = omega arith;
  entry_fits = omega arith;
  ids_fit = omega arith;
  floats_fit = omega arith;
  texts_fit = omega arith;
  graph_fits = omega arith;
}

other : HnswIndex
other = record row { dim = 5; tombstone = true ∷ true ∷ true ∷ true ∷ []; graph = [] }

load-saved_bytes_example :
    load 9 other (some (saved_bytes row))
    ≡ loaded (record row { cfg = other.cfg; vec_accessor = other.vec_accessor })
load-saved_bytes_example = load-saved_bytes 9 other row row-IsIndex row-IsStorable

compacted-IsExtended_example :
    IsExtended row
      (live_nodes row 0 3)
      (new_index 1 config)
      (compacted toy row (λ i. i) no_scratch).0
    × IsIndex (compacted toy row (λ i. i) no_scratch).0
compacted-IsExtended_example =
    compacted-IsExtended toy row (λ i. i) row-IsIndex (omega arith) no_scratch no_scratch-IsScratch

half_open : Opens
half_open = record { index_file = true; log = true; truncated_log = false }

compact-IsSafe_example :
    IsSafe
      (compacted toy row (λ i. i) no_scratch).0
      (some (7 ∷ []))
      (compact toy half_open row (λ i. i) no_scratch none (some (7 ∷ [])))
compact-IsSafe_example = compact-IsSafe toy half_open row (λ i. i) no_scratch none (some (7 ∷ []))
