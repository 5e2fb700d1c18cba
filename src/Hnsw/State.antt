-- ===== src/Hnsw/State.antt =====
-- include/hnsw.hpp: the state of an index, and how its arrays are read. An `int` of the
-- configuration is taken to be no negative number.
use neuraldatabase.Prelude.{
  ℕ, ◌+◌, ◌-◌, ◌*◌, Bool, Option, none, some, List, [], ◌++◌, leb, if◌then◌else◌, length, get_or,
  set, drop, replicate,
}
use neuraldatabase.Float.{Float}

pub record HnswConfig : Type 0 where
  pub m : ℕ
  pub ef_construction : ℕ
  pub ef_search : ℕ

-- neighbour lists by node and layer
abbrev pub Graph : Type 0
Graph = List (List (List ℕ))

pub record HnswIndex : Type 0 where
  pub dim : ℕ
  pub cfg : HnswConfig
  pub num_vectors : ℕ
  pub max_layer : ℕ
  pub entry_point : ℕ
  pub graph : Graph
  pub raw_vectors : List Float
  pub id_map : List ℕ
  pub metadata : List (List ℕ)
  pub tombstone : List Bool
  pub vec_accessor : Option (ℕ → List Float)

unfoldable pub new_index : ℕ → HnswConfig → HnswIndex
new_index dim cfg = record {
  dim = dim;
  cfg = cfg;
  num_vectors = 0;
  max_layer = 0;
  entry_point = 0;
  graph = [];
  raw_vectors = [];
  id_map = [];
  metadata = [];
  tombstone = [];
  vec_accessor = none;
}

-- `get_vec_`: the floats from the returned pointer on
unfoldable pub get_vec : HnswIndex → ℕ → List Float
get_vec index i = elim index.vec_accessor [
  | none ↦ drop (i * index.dim) index.raw_vectors
  | some f ↦ f i
]

-- `graph_[n][layer]`, empty where the node is not on the layer
unfoldable pub links : Graph → ℕ → ℕ → List ℕ
links graph n layer = get_or (get_or graph n []) layer []

-- `if (layer >= graph_[n].size()) graph_[n].resize(layer + 1)`
unfoldable pub grow : List (List ℕ) → ℕ → List (List ℕ)
grow layers layer =
    if leb (length layers) layer then layers ++ replicate (layer + 1 - length layers) [] else layers

-- `graph_[n][layer] = nbs`
unfoldable pub set_links : Graph → ℕ → ℕ → List ℕ → Graph
set_links graph n layer nbs = set graph n (set (get_or graph n []) layer nbs)
