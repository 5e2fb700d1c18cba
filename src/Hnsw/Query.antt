-- ===== src/Hnsw/Query.antt =====
-- src/hnsw.cpp: `HNSWIndex::search`.
pub mod Answer
pub mod Exact
use neuraldatabase.Prelude.{
  ℕ, zero, suc, ◌+◌, ◌≡◌, Bool, true, false, Option, none, some, List, [], ◌∷◌, ◌==◌, if◌then◌else◌,
  length, get_or,
}
use neuraldatabase.Float.{Float}
use neuraldatabase.Kernels.{Arith}
use neuraldatabase.Ranking.{Scored}
use neuraldatabase.VectorStore.{Checked, ok, dimension_mismatch}
use neuraldatabase.Hnsw.State.{HnswIndex}
use neuraldatabase.Hnsw.Layer.{Scratch, search_layer}
use neuraldatabase.Hnsw.Insert.{descend}

-- the first of the `n` nodes from `i` on that is not deleted
unfoldable pub first_live : List Bool → ℕ → ℕ → Option ℕ
first_live tombstone i zero = none
first_live tombstone i (suc n) =
    let rest = first_live tombstone (i + 1) n in if get_or tombstone i false then rest else some i

-- the entry point, or the first live node where that is deleted
unfoldable pub live_entry : HnswIndex → Option ℕ
live_entry index =
    if get_or index.tombstone index.entry_point false
    then first_live index.tombstone 0 index.num_vectors
    else some index.entry_point

-- The collecting loop, with `n` results before it: it stops once there are `k`.
unfoldable pub collect_live : HnswIndex → (k n : ℕ) → List (Scored ℕ) → List (Scored ℕ)
collect_live index k n [] = []
collect_live index k n (cand ∷ rest) =
    let skipped = collect_live index k n rest in
    let more = collect_live index k (n + 1) rest in
    let out : Scored ℕ = (cand.0, get_or index.id_map cand.1 0) in
    if get_or index.tombstone cand.1 false
    then skipped
    else if n + 1 == k
    then out ∷ []
    else out ∷ more

module _ (ops : Arith Float) where
  -- `for (int lc = max_l; lc > 0; --lc)` is the descent to layer 0.
  unfoldable pub search : HnswIndex → List Float → (k : ℕ) → Scratch → List (Scored ℕ) × Scratch
  search index query k scratch =
      if index.num_vectors == 0 then ([], scratch) else elim (live_entry index) [
        | none ↦ ([], scratch)
        | some entry ↦
            let (ep, s) = descend ops index query 0 index.max_layer (entry, scratch) in
            let (candidates, s') = search_layer ops index query ep index.cfg.ef_search 0 s in
            (collect_live index k 0 candidates, s')
      ]

  unfoldable pub search_checked :
      HnswIndex → List Float → (k : ℕ) → Scratch → Checked (List (Scored ℕ) × Scratch)
  search_checked index query k scratch =
      if length query == index.dim then ok (search index query k scratch) else dimension_mismatch
