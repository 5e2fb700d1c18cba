-- ===== src/Hnsw/Storage/RoundTrip.antt =====
-- src/hnsw.cpp: what `load` makes of the file that `save` wrote.
use neuraldatabase.Prelude.{
  ℕ, ◌+◌, ◌*◌, ◌/◌, ◌%◌, ◌^◌, ◌<◌, ◌≡◌, refl, sym, ap, ◌∙◌, Bool, some, List, [], ◌++◌, append-nil,
  arith, length, take_all, replicate, length-replicate, All, All-imp, All-replicate,
}
use neuraldatabase.Bytes.{le_bytes, write_words, Fits, word-Fits, long-Fits}
use neuraldatabase.Hnsw.State.{HnswIndex}
use neuraldatabase.Hnsw.Invariant.{IsIndex}
use neuraldatabase.Hnsw.Storage.{
  magic_number, resize, unpack, tombstone_words, write_texts, write_nodes, body_bytes, saved_bytes,
  read_nodes, loaded, read_tombstone, read_body, load,
}
use neuraldatabase.Hnsw.Storage.Bits.{unpack-pack, pack-All, length-pack}
use neuraldatabase.Hnsw.Storage.Sections.{
  IsText, IsNode, length-resize, rread_int-le_bytes, rread_words-write_words,
  read_texts-write_texts, read_nodes-write_nodes,
}

-- Every number fits the field of the file that it is written to.
pub record IsStorable (index : HnswIndex) : Type 0 where
  pub dim_fits : index.dim < 2 ^ 32
  pub count_fits : index.num_vectors < 2 ^ 64
  pub layer_fits : index.max_layer < 2 ^ 31
  pub entry_fits : index.entry_point < 2 ^ 32
  pub ids_fit : All (Fits 8) index.id_map
  pub floats_fit : All (Fits 4) index.raw_vectors
  pub texts_fit : All IsText index.metadata
  pub graph_fits : All IsNode index.graph

length-tombstone_words :
    (index : HnswIndex) → length (tombstone_words index) ≡ (index.num_vectors + 63) / 64
unfolding tombstone_words
length-tombstone_words index =
    length-pack index.tombstone 0 index.num_vectors (replicate ((index.num_vectors + 63) / 64) 0)
    ∙ length-replicate ((index.num_vectors + 63) / 64) 0

tombstone_words-All : (index : HnswIndex) → All (Fits 8) (tombstone_words index)
unfolding tombstone_words
tombstone_words-All index =
    All-imp (λ w. w < 2 ^ 64) (Fits 8) long-Fits (tombstone_words index)
      (pack-All index.tombstone 0 index.num_vectors (replicate ((index.num_vectors + 63) / 64) 0)
        (All-replicate (λ w. w < 2 ^ 64) ((index.num_vectors + 63) / 64) 0 (omega arith)))

module _ (unset : ℕ) where
  read_tombstone-words :
      (index : HnswIndex) (old : List Bool) (rest : List ℕ)
      → length index.tombstone ≡ index.num_vectors
      → read_tombstone unset 2 index.num_vectors old (write_words 8 (tombstone_words index) ++ rest)
        ≡ (index.tombstone, rest)
  unfolding read_tombstone tombstone_words
  read_tombstone-words index old rest h =
      rw
        (rread_words-write_words 8 (replicate ((index.num_vectors + 63) / 64) 0)
          (tombstone_words index) rest
          (length-replicate ((index.num_vectors + 63) / 64) 0 ∙ sym (length-tombstone_words index))
          (tombstone_words-All index))
        (ap (λ t. (t, rest)) (bits index h))
    where
      bits :
          (index : HnswIndex)
          → length index.tombstone ≡ index.num_vectors
          → unpack (tombstone_words index) 0 index.num_vectors ≡ index.tombstone
      bits index h = rw (← h) (unpack-pack index.tombstone)

  -- The body replaces every array, whatever the index held.
  read_body-body_bytes :
      (old index : HnswIndex)
      → IsIndex index
      → IsStorable index
      → read_body unset old 2 index.dim index.num_vectors (body_bytes index)
        ≡ record index { cfg = old.cfg; vec_accessor = old.vec_accessor }
  unfolding read_body body_bytes
  read_body-body_bytes old index h fits =
      let nv : ℕ = index.num_vectors in
      let r₆ : List ℕ = write_nodes index.graph in
      let r₅ : List ℕ = write_words 8 (tombstone_words index) ++ r₆ in
      let r₄ : List ℕ = le_bytes 4 index.entry_point ++ r₅ in
      let r₃ : List ℕ = le_bytes 4 index.max_layer ++ r₄ in
      let r₂ : List ℕ = write_texts index.metadata ++ r₃ in
      let r₁ : List ℕ = write_words 4 index.raw_vectors ++ r₂ in
      let nodes : read_nodes unset (resize nv [] old.graph) r₆ ≡ (index.graph, []) =
        rw append-nil at (
          read_nodes-write_nodes unset (resize nv [] old.graph) index.graph []
            (length-resize nv [] old.graph ∙ sym h.graph.nodes) fits.graph_fits) in
      rw
        (
          take_all nv index.graph (omega (arith, h.graph.nodes)),
          rread_words-write_words 8 (resize nv 0 old.id_map) index.id_map r₁
              (length-resize nv 0 old.id_map ∙ sym h.ids) fits.ids_fit,
          rread_words-write_words 4 (resize (nv * index.dim) 0 old.raw_vectors) index.raw_vectors r₂
              (length-resize (nv * index.dim) 0 old.raw_vectors ∙ sym h.floats) fits.floats_fit,
          read_texts-write_texts unset (resize nv [] old.metadata) index.metadata r₃
              (length-resize nv [] old.metadata ∙ sym h.texts) fits.texts_fit,
          rread_int-le_bytes 4 old.max_layer index.max_layer r₄
              (word-Fits index.max_layer (omega (arith, fits.layer_fits))),
          rread_int-le_bytes 4 old.entry_point index.entry_point r₅
              (word-Fits index.entry_point fits.entry_fits),
          read_tombstone-words index old.tombstone r₆ h.marks,
          nodes,
        )
        refl

  -- An index in order whose numbers fit their fields is loaded as it was saved, whatever the
  -- loading index held and whatever its locals held before; only the configuration and the vector
  -- accessor stay those of the loading index.
  pub load-saved_bytes :
      (old index : HnswIndex)
      → IsIndex index
      → IsStorable index
      → load unset old (some (saved_bytes index))
        ≡ loaded (record index { cfg = old.cfg; vec_accessor = old.vec_accessor })
  unfolding load saved_bytes
  load-saved_bytes old index h fits =
      let d : index.dim % 2 ^ 32 ≡ index.dim = omega (arith, fits.dim_fits) in
      let r₅ : List ℕ = body_bytes index in
      let r₄ : List ℕ = le_bytes 8 index.num_vectors ++ r₅ in
      let r₃ : List ℕ = le_bytes 4 0 ++ r₄ in
      let r₂ : List ℕ = le_bytes 4 index.dim ++ r₃ in
      let r₁ : List ℕ = le_bytes 4 2 ++ r₂ in
      rw
        (
          d,
          rread_int-le_bytes 4 unset magic_number r₁ (word-Fits magic_number (omega arith)),
          rread_int-le_bytes 4 unset 2 r₂ (word-Fits 2 (omega arith)),
          rread_int-le_bytes 4 unset index.dim r₃ (word-Fits index.dim fits.dim_fits),
          rread_int-le_bytes 4 unset 0 r₄ (word-Fits 0 (omega arith)),
          rread_int-le_bytes 8 unset index.num_vectors r₅
              (long-Fits index.num_vectors fits.count_fits),
          read_body-body_bytes old index h fits,
        )
        refl
