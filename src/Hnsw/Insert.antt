-- ===== src/Hnsw/Insert.antt =====
-- src/hnsw.cpp: `select_neighbours_` and `insert`.
pub mod Connect
pub mod Arrays
pub mod Preserve
use neuraldatabase.Prelude.{
  ℕ, zero, suc, ◌+◌, ◌-◌, ◌*◌, Bool, false, List, [], ◌∷◌, ◌++◌, map, ltb, ◌==◌, if◌then◌else◌,
  length, get_or, set, take, replicate, min, max,
}
use neuraldatabase.Float.{Float}
use neuraldatabase.Kernels.{Arith, cosine_similarity_avx2}
use neuraldatabase.Ranking.{Scored, sort_desc}
use neuraldatabase.VectorStore.{Checked, ok, dimension_mismatch}
use neuraldatabase.Hnsw.State.{HnswConfig, Graph, HnswIndex, get_vec, links, grow, set_links}
use neuraldatabase.Hnsw.Layer.{Scratch, search_layer, node_similarity}

-- Simple distance-based pruning: keep the best `m`. The first argument of the source is not used.
unfoldable pub select_neighbours : List (Scored ℕ) → ℕ → List ℕ
select_neighbours candidates m = map (λ x. x.1) (take m (sort_desc candidates))

-- the new node, alive and on layers 0 to `level`, with no links
unfoldable pub append_node : HnswIndex → ℕ → List Float → List ℕ → ℕ → HnswIndex
append_node index id vec metadata level = record index {
  num_vectors = index.num_vectors + 1;
  raw_vectors = index.raw_vectors ++ take index.dim vec;
  id_map = index.id_map ++ id ∷ [];
  metadata = index.metadata ++ metadata ∷ [];
  tombstone = index.tombstone ++ false ∷ [];
  graph = index.graph ++ replicate (level + 1) [] ∷ [];
}

-- `if (!candidates.empty()) ep = candidates.front().second`
unfoldable pub closest : List (Scored ℕ) → ℕ → ℕ
closest [] ep = ep
closest (c ∷ _) ep = c.1

-- Mmax
unfoldable pub max_links : HnswConfig → ℕ → ℕ
max_links cfg lc = if lc == 0 then cfg.m * 2 else cfg.m

-- a node above all others becomes the entry point
unfoldable pub raise_entry : HnswIndex → (q level : ℕ) → HnswIndex
raise_entry index q level =
    if ltb index.max_layer level then record index { max_layer = level; entry_point = q } else index

module _ (ops : Arith Float) where
  -- `for (int lc = cur_max_layer; lc > level; --lc)`: greedy descent, `n` layers to go
  unfoldable pub descend : HnswIndex → List Float → (level n : ℕ) → ℕ × Scratch → ℕ × Scratch
  descend index query level zero s = s
  descend index query level (suc n) (ep, scratch) =
      let (candidates, scratch') = search_layer ops index query ep 1 (level + suc n) scratch in
      descend index query level n (closest candidates ep, scratch')

  -- the links of `nb` with `q` behind them, pruned if they are more than `mmax`
  unfoldable pub link_back : HnswIndex → (q nb mmax : ℕ) → List ℕ → List ℕ
  link_back index q nb mmax nb_links =
      let more = nb_links ++ q ∷ [] in
      if ltb mmax (length more)
      then select_neighbours (map (λ x. (node_similarity ops index (get_vec index nb) x, x)) more)
          mmax
      else more

  -- the body of `for (uint32_t nb : neighbours)`
  unfoldable pub connect_back : HnswIndex → (q lc nb : ℕ) → HnswIndex
  connect_back index q lc nb =
      let grown = set index.graph nb (grow (get_or index.graph nb []) lc) in
      record index {
        graph =
            set_links grown nb lc
              (link_back index q nb (max_links index.cfg lc) (links grown nb lc));
      }

  unfoldable pub connect_all : HnswIndex → (q lc : ℕ) → List ℕ → HnswIndex
  connect_all index q lc [] = index
  connect_all index q lc (nb ∷ nbs) = connect_all (connect_back index q lc nb) q lc nbs

  -- `for (int lc = min(level, cur_max_layer); lc >= 0; --lc)`, `n` layers to go
  unfoldable pub connect_layers :
      HnswIndex → List Float → (q n : ℕ) → ℕ × Scratch → HnswIndex × Scratch
  connect_layers index query q zero (ep, scratch) = (index, scratch)
  connect_layers index query q (suc lc) (ep, scratch) =
      let ef_c = max index.cfg.ef_construction index.cfg.m in
      let (candidates, scratch') = search_layer ops index query ep ef_c lc scratch in
      let neighbours = select_neighbours candidates index.cfg.m in
      let linked = record index { graph = set_links index.graph q lc neighbours } in
      connect_layers (connect_all linked q lc neighbours) query q lc
        (closest candidates ep, scratch')

  -- The rest of `insert`, once the node `q` stands in the arrays of a nonempty index.
  unfoldable pub link_node : HnswIndex → List Float → (q level : ℕ) → Scratch → HnswIndex × Scratch
  link_node index query q level scratch =
      let top = index.max_layer in
      let at = descend index query level (top - level) (index.entry_point, scratch) in
      let (linked, scratch') = connect_layers index query q (min level top + 1) at in
      (raise_entry linked q level, scratch')

  -- `level` is what `random_layer` drew. The first node has nothing to be linked to.
  unfoldable pub insert :
      HnswIndex → (id : ℕ) → List Float → List ℕ → (level : ℕ) → Scratch → HnswIndex × Scratch
  insert index id vec metadata level scratch =
      let q = index.num_vectors in
      let grown = append_node index id vec metadata level in
      if q == 0
      then (record grown { max_layer = level; entry_point = 0 }, scratch)
      else link_node grown vec q level scratch

  -- The overload that checks the dimension.
  unfoldable pub insert_checked :
      HnswIndex
      → (id : ℕ) → List Float
      → List ℕ
      → (level : ℕ) → Scratch
      → Checked (HnswIndex × Scratch)
  insert_checked index id vec metadata level scratch =
      if length vec == index.dim
      then ok (insert index id vec metadata level scratch)
      else dimension_mismatch
