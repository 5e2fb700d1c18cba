-- ===== src/Hnsw/Invariant.antt =====
-- include/hnsw.hpp: what holds of an index between two calls.
use neuraldatabase.Prelude.{ℕ, ◌*◌, ◌≤◌, ◌<◌, ◌≡◌, refl, arith, All, length}
use neuraldatabase.Hnsw.State.{HnswConfig, HnswIndex, Graph, links, new_index}
use neuraldatabase.Hnsw.Insert.{max_links}

-- There is a node for each vector, no link leads out of the graph, and no list is longer than its
-- layer allows.
pub record IsGraph (cfg : HnswConfig) (nv : ℕ) (graph : Graph) : Type 0 where
  pub nodes : length graph ≡ nv
  pub in_range : (n lc : ℕ) → All (λ m. m < nv) (links graph n lc)
  pub degree : (n lc : ℕ) → length (links graph n lc) ≤ max_links cfg lc

-- The arrays have an element for each vector, and the entry point is one of them.
pub record IsIndex (index : HnswIndex) : Type 0 where
  pub ids : length index.id_map ≡ index.num_vectors
  pub texts : length index.metadata ≡ index.num_vectors
  pub marks : length index.tombstone ≡ index.num_vectors
  pub floats : length index.raw_vectors ≡ index.num_vectors * index.dim
  pub graph : IsGraph index.cfg index.num_vectors index.graph
  pub entry : 0 < index.num_vectors → index.entry_point < index.num_vectors

-- An index that was just constructed is in order.
pub new_index-IsIndex : (dim : ℕ) (cfg : HnswConfig) → IsIndex (new_index dim cfg)
unfolding new_index links
new_index-IsIndex dim cfg = record {
  ids = refl;
  texts = refl;
  marks = refl;
  floats = omega arith;
  graph = record { nodes = refl; in_range = λ n lc. tt; degree = λ n lc. omega arith };
  entry = λ h. h;
}
