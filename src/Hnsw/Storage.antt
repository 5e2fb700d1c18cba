-- ===== src/Hnsw/Storage.antt =====
-- src/hnsw.cpp: `save` and `load`. A file is its list of bytes. A read that finds too few bytes
-- leaves the rest of its target as it was; a local of the source that was never set holds `unset`.
pub mod Bits
pub mod Sections
pub mod RoundTrip
use neuraldatabase.Prelude.{
  ℕ, zero, suc, ◌+◌, ◌-◌, ◌*◌, ◌/◌, ◌%◌, ◌^◌, Bool, true, false, Option, none, some, List, [], ◌∷◌,
  ◌++◌, ◌==◌, if◌then◌else◌, length, get_or, set, take, replicate, leb,
}
use neuraldatabase.Bytes.{le_bytes, of_le_bytes, write_words}
use neuraldatabase.Hnsw.State.{Graph, HnswIndex}

-- 0x4E444220
abbrev pub magic_number : ℕ
magic_number = 1313096224

-- `std::vector::resize`
unfoldable pub resize : {A : Type 0} → ℕ → A → List A → List A
resize n value xs = take n xs ++ replicate (n - length xs) value

-- `rread` into bytes that hold `old`
unfoldable pub rread : List ℕ → List ℕ → List ℕ × List ℕ
rread [] bytes = ([], bytes)
rread (o ∷ old) [] = (o ∷ old, [])
rread (o ∷ old) (b ∷ bytes) = let (got, rest) = rread old bytes in (b ∷ got, rest)

-- into an integer of `k` bytes
unfoldable pub rread_int : (k old : ℕ) → List ℕ → ℕ × List ℕ
rread_int k old bytes = let (got, rest) = rread (le_bytes k old) bytes in (of_le_bytes got, rest)

-- into an array of such integers, the first one first
unfoldable pub rread_words : ℕ → List ℕ → List ℕ → List ℕ × List ℕ
rread_words k [] bytes = ([], bytes)
rread_words k (o ∷ old) bytes =
    let (w, rest) = rread_int k o bytes in
    let (ws, rest') = rread_words k old rest in (w ∷ ws, rest')

-- `w >> j & 1`, and `w |= uint64_t(1) << j`
unfoldable pub test_bit : ℕ → ℕ → Bool
test_bit w zero = w % 2 == 1
test_bit w (suc j) = test_bit (w / 2) j

unfoldable pub set_bit : ℕ → ℕ → ℕ
set_bit w zero = w / 2 * 2 + 1
set_bit w (suc j) = w % 2 + 2 * set_bit (w / 2) j

-- `tbits[i / 64] |= (uint64_t(1) << (i % 64))`
unfoldable pub mark_bit : List ℕ → ℕ → List ℕ
mark_bit tbits i = set tbits (i / 64) (set_bit (get_or tbits (i / 64) 0) (i % 64))

-- the loop of `save` over the `n` tombstones from `i` on
unfoldable pub pack : List Bool → (i n : ℕ) → List ℕ → List ℕ
pack tombstone i zero tbits = tbits
pack tombstone i (suc n) tbits =
    pack tombstone (i + 1) n (if get_or tombstone i false then mark_bit tbits i else tbits)

-- the loop of `load`
unfoldable pub unpack : List ℕ → (i n : ℕ) → List Bool
unpack tbits i zero = []
unpack tbits i (suc n) = test_bit (get_or tbits (i / 64) 0) (i % 64) ∷ unpack tbits (i + 1) n

unfoldable pub write_texts : List (List ℕ) → List ℕ
write_texts [] = []
write_texts (text ∷ texts) =
    le_bytes 4 (length text % 2 ^ 32) ++ (take (length text % 2 ^ 32) text ++ write_texts texts)

unfoldable pub write_layers : List (List ℕ) → List ℕ
write_layers [] = []
write_layers (nbs ∷ layers) =
    le_bytes 4 (length nbs % 2 ^ 32)
    ++ (write_words 4 (take (length nbs % 2 ^ 32) nbs) ++ write_layers layers)

unfoldable pub write_nodes : Graph → List ℕ
write_nodes [] = []
write_nodes (layers ∷ graph) =
    le_bytes 4 (length layers % 2 ^ 32) ++ (write_layers layers ++ write_nodes graph)

unfoldable pub tombstone_words : HnswIndex → List ℕ
tombstone_words index =
    pack index.tombstone 0 index.num_vectors (replicate ((index.num_vectors + 63) / 64) 0)

-- what stands behind the header
unfoldable pub body_bytes : HnswIndex → List ℕ
body_bytes index =
    write_words 8 index.id_map
    ++ (write_words 4 index.raw_vectors
        ++ (write_texts index.metadata
            ++ (le_bytes 4 index.max_layer
                ++ (le_bytes 4 index.entry_point
                    ++ (write_words 8 (tombstone_words index)
                        ++ write_nodes (take index.num_vectors index.graph))))))

unfoldable pub saved_bytes : HnswIndex → List ℕ
unfolding body_bytes
saved_bytes index =
    le_bytes 4 magic_number
    ++ (le_bytes 4 2
        ++ (le_bytes 4 (index.dim % 2 ^ 32)
            ++ (le_bytes 4 0 ++ (le_bytes 8 index.num_vectors ++ body_bytes index))))

pub data Saved : Type 0 where
  saved : List ℕ → Saved
  cannot_write : Saved

-- `opens` says whether fopen(path, "wb") succeeds
unfoldable pub save : Bool → HnswIndex → Saved
unfolding saved_bytes
save true index = saved (saved_bytes index)
save false index = cannot_write

pub data Loaded : Type 0 where
  loaded : HnswIndex → Loaded
  cannot_read : Loaded
  bad_magic : Loaded

module _ (unset : ℕ) where
  -- the loop over the metadata, into the strings that are there
  unfoldable pub read_texts : List (List ℕ) → List ℕ → List (List ℕ) × List ℕ
  read_texts [] bytes = ([], bytes)
  read_texts (old ∷ olds) bytes =
      let (len, r₁) = rread_int 4 unset bytes in
      let (text, r₂) = rread (resize len 0 old) r₁ in
      let (texts, r₃) = read_texts olds r₂ in (text ∷ texts, r₃)

  unfoldable pub read_layers : List (List ℕ) → List ℕ → List (List ℕ) × List ℕ
  read_layers [] bytes = ([], bytes)
  read_layers (old ∷ olds) bytes =
      let (sz, r₁) = rread_int 4 unset bytes in
      let (nbs, r₂) = rread_words 4 (resize sz 0 old) r₁ in
      let (layers, r₃) = read_layers olds r₂ in (nbs ∷ layers, r₃)

  unfoldable pub read_nodes : Graph → List ℕ → Graph × List ℕ
  read_nodes [] bytes = ([], bytes)
  read_nodes (old ∷ olds) bytes =
      let (nlayers, r₁) = rread_int 4 unset bytes in
      let (layers, r₂) = read_layers (resize nlayers [] old) r₁ in
      let (graph, r₃) = read_nodes olds r₂ in (layers ∷ graph, r₃)

  -- `if (ver >= 2)`: an older file has no tombstones, and those of the index stay.
  unfoldable pub read_tombstone : (ver nv : ℕ) → List Bool → List ℕ → List Bool × List ℕ
  read_tombstone ver nv old bytes =
      let (tbits, rest) = rread_words 8 (replicate ((nv + 63) / 64) 0) bytes in
      if leb 2 ver then (unpack tbits 0 nv, rest) else (resize nv false old, bytes)

  -- what `load` reads behind the header
  unfoldable pub read_body : HnswIndex → (ver dim nv : ℕ) → List ℕ → HnswIndex
  read_body index ver dim nv bytes =
      let (id_map, r₁) = rread_words 8 (resize nv 0 index.id_map) bytes in
      let (raw_vectors, r₂) = rread_words 4 (resize (nv * dim) 0 index.raw_vectors) r₁ in
      let (metadata, r₃) = read_texts (resize nv [] index.metadata) r₂ in
      let (max_layer, r₄) = rread_int 4 index.max_layer r₃ in
      let (entry_point, r₅) = rread_int 4 index.entry_point r₄ in
      let (tombstone, r₆) = read_tombstone ver nv index.tombstone r₅ in
      let (graph, r₇) = read_nodes (resize nv [] index.graph) r₆ in
      record {
        dim = dim;
        cfg = index.cfg;
        num_vectors = nv;
        max_layer = max_layer;
        entry_point = entry_point;
        graph = graph;
        raw_vectors = raw_vectors;
        id_map = id_map;
        metadata = metadata;
        tombstone = tombstone;
        vec_accessor = index.vec_accessor;
      }

  -- `none` is a file that cannot be opened. The memory for what the file announces is taken to be
  -- there.
  unfoldable pub load : HnswIndex → Option (List ℕ) → Loaded
  load index none = cannot_read
  load index (some bytes) =
      let (magic, r₁) = rread_int 4 unset bytes in
      let (ver, r₂) = rread_int 4 unset r₁ in
      let (dim, r₃) = rread_int 4 unset r₂ in
      let (res, r₄) = rread_int 4 unset r₃ in
      let (nv, r₅) = rread_int 8 unset r₄ in
      if magic == magic_number then loaded (read_body index ver dim nv r₅) else bad_magic
