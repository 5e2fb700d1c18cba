-- ===== src/Hnsw/Tombstones.antt =====
-- src/hnsw.cpp: soft deletion, `delete_vector`, `is_deleted` and `live_size`.
pub mod Marks
use neuraldatabase.Prelude.{
  ℕ, zero, suc, ◌+◌, ◌≡◌, Bool, true, false, not, Option, none, some, List, [], ◌∷◌, ◌==◌,
  if◌then◌else◌, length, get_or, set, keep,
}
use neuraldatabase.Hnsw.State.{HnswIndex}

-- The loops over the ids: the first of the `n` indices from `i` on whose id it is, and `none`
-- where the loop ends.
unfoldable pub find_from : List ℕ → ℕ → ℕ → ℕ → Option ℕ
find_from id_map id i zero = none
find_from id_map id i (suc n) =
    let rest = find_from id_map id (i + 1) n in if get_or id_map i 0 == id then some i else rest

unfoldable pub delete_vector : HnswIndex → ℕ → HnswIndex
unfolding find_from
delete_vector index id = elim (find_from index.id_map id 0 index.num_vectors) [
  | none ↦ index
  | some i ↦ record index { tombstone = set index.tombstone i true }
]

unfoldable pub is_deleted : HnswIndex → ℕ → Bool
unfolding find_from
is_deleted index id = elim (find_from index.id_map id 0 index.num_vectors) [
  | none ↦ false
  | some i ↦ get_or index.tombstone i false
]

unfoldable pub live_size : HnswIndex → ℕ
live_size index = length (keep not index.tombstone)
