-- ===== src/Hnsw/Threads/Next.antt =====
-- src/hnsw.cpp: what one section under the lock does to the index.
use neuraldatabase.Prelude.{
  ℕ, ◌≤◌, ◌<◌, ◌≡◌, refl, inl, inr, List, [], ◌∷◌, arith, Bool-cases, false, length, length-append,
  length-take, take, ltb,
}
use neuraldatabase.Float.{Float}
use neuraldatabase.Hnsw.State.{HnswIndex, Graph}
use neuraldatabase.Hnsw.Invariant.{IsGraph, IsIndex}
use neuraldatabase.Hnsw.Insert.{append_node, raise_entry}
use neuraldatabase.Hnsw.Insert.Preserve.{append_node-IsGraph}
use neuraldatabase.Hnsw.Tombstones.{delete_vector}
use neuraldatabase.Hnsw.Tombstones.Marks.{delete_vector-IsIndex}

-- The index after a step: in order, with no node fewer, of the same dimension and configuration.
pub record IsNext (index index' : HnswIndex) : Type 0 where
  pub valid : IsIndex index'
  pub grows : index.num_vectors ≤ index'.num_vectors
  pub dim : index'.dim ≡ index.dim
  pub cfg : index'.cfg ≡ index.cfg

pub same-IsNext : (index : HnswIndex) → IsIndex index → IsNext index index
same-IsNext index h = record { valid = h; grows = omega arith; dim = refl; cfg = refl }

pub regraph-IsNext :
    (index : HnswIndex) (graph : Graph)
    → IsIndex index
    → IsGraph index.cfg index.num_vectors graph
    → IsNext index (record index { graph = graph })
regraph-IsNext index graph h g = record {
  valid = record {
    ids = h.ids;
    texts = h.texts;
    marks = h.marks;
    floats = h.floats;
    graph = g;
    entry = h.entry;
  };
  grows = omega arith;
  dim = refl;
  cfg = refl;
}

pub append_node-IsNext :
    (index : HnswIndex) (id : ℕ) (vec : List Float) (metadata : List ℕ) (level top ep : ℕ)
    → index.dim ≤ length vec
    → ep ≤ index.num_vectors
    → IsIndex index
    → IsNext index
        (record (append_node index id vec metadata level) { max_layer = top; entry_point = ep })
unfolding append_node
append_node-IsNext index id vec metadata level top ep fits lt h = record {
  valid = record {
    ids = omega (arith, length-append index.id_map (id ∷ []), h.ids);
    texts = omega (arith, length-append index.metadata (metadata ∷ []), h.texts);
    marks = omega (arith, length-append index.tombstone (false ∷ []), h.marks);
    floats = omega (
      arith,
      length-append index.raw_vectors (take index.dim vec),
      length-take index.dim vec,
      h.floats,
    );
    graph = append_node-IsGraph index id vec metadata level h.graph;
    entry = λ _. omega arith;
  };
  grows = omega arith;
  dim = refl;
  cfg = refl;
}

pub raise_entry-IsNext :
    (index : HnswIndex) (q level : ℕ)
    → q < index.num_vectors
    → IsIndex index
    → IsNext index (raise_entry index q level)
unfolding raise_entry
raise_entry-IsNext index q level lt h = elim (Bool-cases (ltb index.max_layer level)) [
  | inl e ↦ rw e (record {
    valid = record {
      ids = h.ids;
      texts = h.texts;
      marks = h.marks;
      floats = h.floats;
      graph = h.graph;
      entry = λ _. lt;
    };
    grows = omega arith;
    dim = refl;
    cfg = refl;
  })
  | inr e ↦ rw e (same-IsNext index h)
]

pub delete_vector-IsNext :
    (index : HnswIndex) (id : ℕ) → IsIndex index → IsNext index (delete_vector index id)
unfolding delete_vector
delete_vector-IsNext index id h = record {
  valid = delete_vector-IsIndex index id h;
  grows = ground arith;
  dim = ground arith;
  cfg = ground arith;
}
