-- ===== src/Tests/Data.antt =====
-- The inputs of the tests: an arithmetic in which the similarity is the scalar product, small
-- vectors, a log, and indexes that hold them.
use neuraldatabase.Prelude.{ℕ, ◌+◌, ◌-◌, ◌*◌, Bool, true, false, Option, none, some, List, [], ◌∷◌}
use neuraldatabase.Float.{Float}
use neuraldatabase.Kernels.{Arith}
use neuraldatabase.Wal.{WalRecord}
use neuraldatabase.Wal.Entries.{Entry, inserted, deleted}
use neuraldatabase.VectorStore
use neuraldatabase.VectorStore.{FlatIndex, Vector}
use neuraldatabase.Hnsw.State.{HnswConfig, HnswIndex}
use neuraldatabase.Hnsw.Layer.{Scratch}

-- Small patterns are denormal numbers in the order of the natural numbers.
abbrev pub toy : Arith Float
toy = record {
  zero_f = 0;
  add = λ a b. a + b;
  sub = λ a b. a - b;
  mul = λ a b. a * b;
  div = λ a b. a;
  fma = λ a b c. a * b + c;
  sqrt = λ a. a;
  tiny = λ a. false;
}

abbrev pub entries : List Entry
entries = inserted 7 (1 ∷ 2 ∷ []) (65 ∷ []) ∷ deleted 7 ∷ inserted 9 (3 ∷ 4 ∷ []) [] ∷ []

abbrev pub on_insert : FlatIndex → WalRecord → FlatIndex
on_insert index rec = VectorStore.insert index rec.id rec.vec rec.metadata

abbrev pub on_delete : Option (FlatIndex → ℕ → FlatIndex)
on_delete = some VectorStore.delete_vector

abbrev pub vector : ℕ → List Float → Bool → Vector
vector id values gone = record { id = id; metadata = 65 ∷ []; values = values; deleted = gone }

abbrev pub flat : FlatIndex
flat = record {
  dim = 2;
  vectors =
      vector 7 (1 ∷ 2 ∷ []) true ∷ vector 8 (2 ∷ 2 ∷ []) false ∷ vector 9 (3 ∷ 4 ∷ []) false ∷ [];
}

abbrev pub query : List Float
query = 1 ∷ 1 ∷ []

abbrev pub config : HnswConfig
config = record { m = 2; ef_construction = 2; ef_search = 2 }

-- Three nodes in a row, the first of them deleted.
abbrev pub row : HnswIndex
row = record {
  dim = 1;
  cfg = config;
  num_vectors = 3;
  max_layer = 0;
  entry_point = 0;
  graph = ((1 ∷ []) ∷ []) ∷ ((0 ∷ 2 ∷ []) ∷ []) ∷ ((1 ∷ []) ∷ []) ∷ [];
  raw_vectors = 5 ∷ 6 ∷ 7 ∷ [];
  id_map = 50 ∷ 60 ∷ 70 ∷ [];
  metadata = [] ∷ [] ∷ [] ∷ [];
  tombstone = true ∷ false ∷ false ∷ [];
  vec_accessor = none;
}

abbrev pub no_scratch : Scratch
no_scratch = record { visited_buf = []; visit_tag = 0 }
