-- ===== src/Hnsw/Compact/Live.antt =====
-- src/hnsw.cpp: which vectors stand in the index that `compact` builds.
use neuraldatabase.Prelude.{
  ℕ, zero, suc, ◌+◌, ◌*◌, ◌<◌, ◌≤◌, ◌≡◌, refl, sym, ap, ◌∙◌, inl, inr, false, not, List, [], ◌∷◌,
  ◌++◌, append_assoc, append-nil, map, arith, Bool-cases, length, get_or, keep, take, drop,
  replicate, length-drop, row_fits,
}
use neuraldatabase.Float.{Float}
use neuraldatabase.Kernels.{Arith}
use neuraldatabase.Hnsw.State.{HnswIndex, new_index}
use neuraldatabase.Hnsw.Invariant.{IsIndex, new_index-IsIndex}
use neuraldatabase.Hnsw.Layer.{Scratch}
use neuraldatabase.Hnsw.Layer.Tags.{IsScratch}
use neuraldatabase.Hnsw.Insert.{append_node}
use neuraldatabase.Hnsw.Insert.Arrays.{Rewired, insert-Rewired}
use neuraldatabase.Hnsw.Insert.Preserve.{insert-IsIndex}
use neuraldatabase.Hnsw.Compact.{reinsert, refill, compacted}

unfoldable pub range : (i n : ℕ) → List ℕ
range i zero = []
range i (suc n) = i ∷ range (i + 1) n

-- the nodes of `i` to `i + n` that are not deleted, in order
unfoldable pub live_nodes : HnswIndex → (i n : ℕ) → List ℕ
unfolding range
live_nodes index i n = keep (λ j. not (get_or index.tombstone j false)) (range i n)

-- the floats of a list of nodes, one vector after another
unfoldable pub floats_of : HnswIndex → List ℕ → List Float
floats_of index [] = []
floats_of index (j ∷ js) =
    take index.dim (drop (j * index.dim) index.raw_vectors) ++ floats_of index js

-- `after` is `before` with the `nodes` of `index` behind it, none of them deleted.
pub record IsExtended (index : HnswIndex) (nodes : List ℕ) (before after : HnswIndex) : Type 0 where
  pub same_dim : after.dim ≡ before.dim
  pub same_cfg : after.cfg ≡ before.cfg
  pub count : after.num_vectors ≡ before.num_vectors + length nodes
  pub ids : after.id_map ≡ before.id_map ++ map (λ j. get_or index.id_map j 0) nodes
  pub texts : after.metadata ≡ before.metadata ++ map (λ j. get_or index.metadata j []) nodes
  pub floats : after.raw_vectors ≡ before.raw_vectors ++ floats_of index nodes
  pub marks : after.tombstone ≡ before.tombstone ++ replicate (length nodes) false

none-IsExtended : (index before : HnswIndex) → IsExtended index [] before before
unfolding floats_of
none-IsExtended index before = record {
  same_dim = refl;
  same_cfg = refl;
  count = omega arith;
  ids = sym (append-nil before.id_map);
  texts = sym (append-nil before.metadata);
  floats = sym (append-nil before.raw_vectors);
  marks = sym (append-nil before.tombstone);
}

-- a node appended, then the others
cons-IsExtended :
    (index before after : HnswIndex) (j level : ℕ) (nodes : List ℕ) (linked : HnswIndex)
    → before.dim ≡ index.dim
    → Rewired
        (append_node before
          (get_or index.id_map j 0)
          (drop (j * index.dim) index.raw_vectors)
          (get_or index.metadata j [])
          level)
        linked
    → IsExtended index nodes linked after
    → IsExtended index (j ∷ nodes) before after
unfolding append_node floats_of
cons-IsExtended index before after j level nodes linked d w h =
    let vec = drop (j * index.dim) index.raw_vectors in
    record {
      same_dim = h.same_dim ∙ ap (λ (i : HnswIndex). i.dim) w;
      same_cfg = h.same_cfg ∙ ap (λ (i : HnswIndex). i.cfg) w;
      count = omega (arith, h.count, ap (λ (i : HnswIndex). i.num_vectors) w);
      ids =
          h.ids
          ∙ ap (λ (i : HnswIndex). i.id_map ++ map (λ k. get_or index.id_map k 0) nodes) w
          ∙ append_assoc before.id_map (get_or index.id_map j 0 ∷ [])
              (map (λ k. get_or index.id_map k 0) nodes);
      texts =
          h.texts
          ∙ ap (λ (i : HnswIndex). i.metadata ++ map (λ k. get_or index.metadata k []) nodes) w
          ∙ append_assoc before.metadata (get_or index.metadata j [] ∷ [])
              (map (λ k. get_or index.metadata k []) nodes);
      floats =
          h.floats
          ∙ ap (λ (i : HnswIndex). i.raw_vectors ++ floats_of index nodes) w
          ∙ append_assoc before.raw_vectors (take before.dim vec) (floats_of index nodes)
          ∙ ap (λ n. before.raw_vectors ++ (take n vec ++ floats_of index nodes)) d;
      marks =
          h.marks
          ∙ ap (λ (i : HnswIndex). i.tombstone ++ replicate (length nodes) false) w
          ∙ append_assoc before.tombstone (false ∷ []) (replicate (length nodes) false);
    }

-- The fresh index during the loop.
abbrev InProgress : HnswIndex → HnswIndex × Scratch → Type 0
InProgress index fresh =
    (fresh.0.dim ≡ index.dim) × (fresh.0.cfg ≡ index.cfg) × IsIndex fresh.0 × IsScratch fresh.1

-- The loop adds the nodes of `nodes` and stays in progress.
abbrev Refilled : HnswIndex → List ℕ → HnswIndex → HnswIndex × Scratch → Type 0
Refilled index nodes before after = IsExtended index nodes before after.0 × InProgress index after

module _ (ops : Arith Float) (index : HnswIndex) (levels : ℕ → ℕ) (h : IsIndex index)
    (pos : 0 < index.cfg.m) where
  reinsert-InProgress :
      (fresh : HnswIndex × Scratch) (i : ℕ)
      → i < index.num_vectors
      → InProgress index fresh
      → InProgress index (reinsert ops index levels i fresh)
  unfolding reinsert append_node
  reinsert-InProgress (fresh, s) i l (d, c, g, v) =
      let id = get_or index.id_map i 0 in
      let vec = drop (i * index.dim) index.raw_vectors in
      let text = get_or index.metadata i [] in
      let w = insert-Rewired ops fresh id vec text (levels i) s in
      let p = insert-IsIndex ops fresh id vec text (levels i) s (rw c pos) v g (
        omega (
          arith,
          d,
          length-drop (i * index.dim) index.raw_vectors,
          row_fits index.num_vectors i index.dim l,
          h.floats,
        )) in
      (ap (λ (j : HnswIndex). j.dim) w ∙ d, ap (λ (j : HnswIndex). j.cfg) w ∙ c, p.0, p.1)

  refill-Refilled :
      (i n : ℕ) (fresh : HnswIndex × Scratch)
      → i + n ≤ index.num_vectors
      → InProgress index fresh
      → Refilled index (live_nodes index i n) fresh.0 (refill ops index levels i n fresh)
  unfolding refill live_nodes range reinsert
  refill-Refilled i zero fresh l p = (none-IsExtended index fresh.0, p)
  refill-Refilled i (suc n) fresh l p = elim (Bool-cases (get_or index.tombstone i false)) [
    | inl e ↦ rw e (refill-Refilled (i + 1) n fresh (omega arith) p)
    | inr e ↦
        let q = reinsert-InProgress fresh i (omega arith) p in
        let r = refill-Refilled (i + 1) n (reinsert ops index levels i fresh) (omega arith) q in
        rw e (
          cons-IsExtended index fresh.0
              (refill ops index levels (i + 1) n (reinsert ops index levels i fresh)).0 i (levels i)
              (live_nodes index (i + 1) n) (reinsert ops index levels i fresh).0 p.0
              (insert-Rewired ops fresh.0 (get_or index.id_map i 0)
                (drop (i * index.dim) index.raw_vectors) (get_or index.metadata i []) (levels i)
                fresh.1)
              r.0,
          r.1,
        )
  ]

  -- The index that `compact` builds is in order and holds exactly the vectors that are not
  -- deleted, in their order, each with its id, its metadata and its floats, and none deleted.
  pub compacted-IsExtended :
      (s : Scratch)
      → IsScratch s
      → IsExtended index
          (live_nodes index 0 index.num_vectors)
          (new_index index.dim index.cfg)
          (compacted ops index levels s).0
        × IsIndex (compacted ops index levels s).0
  unfolding compacted new_index
  compacted-IsExtended s v =
      let (extended, (d, c, g, v')) =
        refill-Refilled 0 index.num_vectors (new_index index.dim index.cfg, s) (omega arith)
          (refl, refl, new_index-IsIndex index.dim index.cfg, v) in
      (extended, g)

  pub compacted-IsScratch : (s : Scratch) → IsScratch s → IsScratch (compacted ops index levels s).1
  unfolding compacted new_index
  compacted-IsScratch s v =
      (refill-Refilled 0 index.num_vectors (new_index index.dim index.cfg, s) (omega arith)
        (refl, refl, new_index-IsIndex index.dim index.cfg, v)).1.3
