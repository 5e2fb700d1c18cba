-- ===== src/Paged/Index/Paired.antt =====
-- src/paged_index.cpp: the slots of the store and the internal ids of the HNSW index run together.
use neuraldatabase.Prelude.{ℕ, ◌≡◌, refl, true, List, [], length}
use neuraldatabase.Float.{Float}
use neuraldatabase.Hnsw.State
use neuraldatabase.Hnsw.State.{HnswConfig, HnswIndex}
use neuraldatabase.Hnsw.Invariant.{IsIndex, new_index-IsIndex}
use neuraldatabase.Hnsw.Insert
use neuraldatabase.Paged.{PagedStore, opened, open_store}
use neuraldatabase.Paged.Reads.{IsStore}
use neuraldatabase.Paged.Steps.{open_store-IsStore, open_store-dim}
use neuraldatabase.Paged.Index.{PagedIndex, reading}

-- The store holds the vectors `vs`, and the index has a node for each of them.
pub record IsPaired (p : PagedIndex) (vs : List (List Float)) : Type 0 where
  pub store : IsStore p.store vs
  pub index : IsIndex p.hnsw
  pub store_dim : p.store.dim ≡ p.dim
  pub hnsw_dim : p.hnsw.dim ≡ p.dim
  pub count : p.hnsw.num_vectors ≡ length vs

reading-IsIndex : (hnsw : HnswIndex) (s : PagedStore) → IsIndex hnsw → IsIndex (reading hnsw s)
reading-IsIndex hnsw s h = record {
  ids = h.ids;
  texts = h.texts;
  marks = h.marks;
  floats = h.floats;
  graph = h.graph;
  entry = h.entry;
}

-- A store that opens on no bytes is paired with the index that is constructed with it.
pub open_index-IsPaired :
    (dim cache_bytes : ℕ) (cfg : HnswConfig) (store : PagedStore)
    → open_store dim cache_bytes true [] ≡ opened store
    → IsPaired
        (record { dim = dim; store = store; hnsw = reading (State.new_index dim cfg) store })
        []
unfolding State.new_index
open_index-IsPaired dim cache_bytes cfg store h = record {
  store = open_store-IsStore dim cache_bytes store h;
  index = reading-IsIndex (State.new_index dim cfg) store (new_index-IsIndex dim cfg);
  store_dim = open_store-dim dim cache_bytes store h;
  hnsw_dim = refl;
  count = refl;
}
