-- ===== src/Bindings.antt =====
-- python/bindings.cpp: `search` of the Python class Index, which filters the results of an HNSW
-- search. A metadata text stands for the dictionary that is made of it.
pub mod Results
pub mod Values
pub mod Dicts
pub mod RoundTrip
pub mod Session
use neuraldatabase.Prelude.{
  ℕ, zero, suc, ◌+◌, ◌*◌, Bool, true, false, Option, none, some, List, [], ◌∷◌, leb, if◌then◌else◌,
  get_or,
}
use neuraldatabase.Float.{Float}
use neuraldatabase.Kernels.{Arith}
use neuraldatabase.Ranking.{Scored}
use neuraldatabase.Filter.{Json, Text, parse_where, evaluate_filter}
use neuraldatabase.Hnsw.State.{HnswIndex}
use neuraldatabase.Hnsw.Layer.{Scratch}
use neuraldatabase.Hnsw.Query
use neuraldatabase.Hnsw.Tombstones.{find_from}

pub record Hit : Type 0 where
  pub id : ℕ
  pub score : Float
  pub metadata : Text

-- `iid`: the first node of the id, deleted or not; 0 where there is none
unfoldable pub internal_id : HnswIndex → ℕ → ℕ
internal_id index id = elim (find_from index.id_map id 0 index.num_vectors) [
  | none ↦ 0
  | some i ↦ i
]

unfoldable pub meta_of : HnswIndex → ℕ → Text
unfolding internal_id
meta_of index id = get_or index.metadata (internal_id index id) []

unfoldable pub hit_of : HnswIndex → Scored ℕ → Hit
unfolding meta_of
hit_of index x = record { id = x.1; score = x.0; metadata = meta_of index x.1 }

-- the loop over `raw_results`, with `returned` results before it
unfoldable pub collect_hits :
    HnswIndex → (passes : Text → Bool) → (k returned : ℕ) → List (Scored ℕ) → List Hit
collect_hits index passes k returned [] = []
collect_hits index passes k returned (x ∷ rest) =
    let skipped = collect_hits index passes k returned rest in
    let more = collect_hits index passes k (returned + 1) rest in
    if leb k returned
    then []
    else if passes (meta_of index x.1)
    then hit_of index x ∷ more
    else skipped

module _ {J : Type 0} (json : Json J) (ops : Arith Float) where
  -- `none` where `parse_where` throws; without a condition every result passes
  unfoldable pub search :
      HnswIndex → List Float → (k : ℕ) → (where_json : Option J) → Scratch → Option (List Hit)
  search index query k none s =
      some (collect_hits index (λ text. true) k 0 (Query.search ops index query k s).0)
  search index query k (some where_json) s = elim (parse_where json where_json) [
    | none ↦ none
    | some wc ↦ some (
        collect_hits index (λ text. evaluate_filter json text wc) k 0
          (Query.search ops index query (k * 4) s).0)
  ]
