-- ===== src/Hnsw/Insert/Arrays.antt =====
-- src/hnsw.cpp: which fields the steps of `insert` write. Linking changes nothing but the graph.
use neuraldatabase.Prelude.{
  ℕ, zero, suc, ◌+◌, ◌-◌, ◌≡◌, refl, ap, ◌∙◌, inl, inr, List, [], ◌∷◌, min, max, ◌==◌, ltb,
  Bool-cases,
}
use neuraldatabase.Float.{Float}
use neuraldatabase.Kernels.{Arith}
use neuraldatabase.Hnsw.State.{HnswIndex, Graph, set_links}
use neuraldatabase.Hnsw.Layer.{Scratch, search_layer}
use neuraldatabase.Hnsw.Insert.{
  select_neighbours, append_node, closest, descend, connect_back, connect_all, connect_layers,
  raise_entry, link_node, insert,
}

-- `after` has the arrays of `before`, with another graph and another entry point.
abbrev pub Rewired : HnswIndex → HnswIndex → Type 0
Rewired before after = after ≡ record before {
  graph = after.graph;
  max_layer = after.max_layer;
  entry_point = after.entry_point;
}

abbrev update_graph : HnswIndex → Graph → HnswIndex
update_graph index graph = record index { graph = graph }

raise_entry-Rewired :
    (before index : HnswIndex) (q level : ℕ)
    → Rewired before index
    → Rewired before (raise_entry index q level)
unfolding raise_entry
raise_entry-Rewired before index q level h = elim (Bool-cases (ltb index.max_layer level)) [
  | inl e ↦ rw e (ap (λ (i : HnswIndex). entered i) h)
  | inr e ↦ rw e h
]
  where
    entered : HnswIndex → HnswIndex
    entered i = record i { max_layer = level; entry_point = q }

module _ (ops : Arith Float) where
  pub connect_all-graph :
      (index : HnswIndex) (q lc : ℕ) (nbs : List ℕ)
      → connect_all ops index q lc nbs
        ≡ record index { graph = (connect_all ops index q lc nbs).graph }
  unfolding connect_all connect_back
  connect_all-graph index q lc [] = refl
  connect_all-graph index q lc (nb ∷ nbs) =
      connect_all-graph (connect_back ops index q lc nb) q lc nbs

  pub connect_layers-graph :
      (index : HnswIndex) (query : List Float) (q n ep : ℕ) (s : Scratch)
      → (connect_layers ops index query q n (ep, s)).0
        ≡ record index { graph = (connect_layers ops index query q n (ep, s)).0.graph }
  unfolding connect_layers
  connect_layers-graph index query q zero ep s = refl
  connect_layers-graph index query q (suc lc) ep s =
      let (candidates, s') =
        search_layer ops index query ep (max index.cfg.ef_construction index.cfg.m) lc s in
      let neighbours = select_neighbours candidates index.cfg.m in
      let linked : HnswIndex = record index { graph = set_links index.graph q lc neighbours } in
      let connected = connect_all ops linked q lc neighbours in
      let ih = connect_layers-graph connected query q lc (closest candidates ep) s' in
      let e = connect_all-graph linked q lc neighbours in
      let g = (connect_layers ops connected query q lc (closest candidates ep, s')).0.graph in
      ih ∙ ap (λ (i : HnswIndex). update_graph i g) e

  -- A node is linked by changing the graph and the entry point.
  pub link_node-Rewired :
      (index : HnswIndex) (query : List Float) (q level : ℕ) (s : Scratch)
      → Rewired index (link_node ops index query q level s).0
  unfolding link_node
  link_node-Rewired index query q level s =
      let (ep, s') =
        descend ops index query level (index.max_layer - level) (index.entry_point, s) in
      let layers = min level index.max_layer + 1 in
      let linked = (connect_layers ops index query q layers (ep, s')).0 in
      rw (connect_layers-graph index query q layers ep s')
        (raise_entry-Rewired index (record index { graph = linked.graph }) q level refl)

  -- `insert` appends to every array and links the node; what stood in the arrays stays.
  pub insert-Rewired :
      (index : HnswIndex) (id : ℕ) (vec : List Float) (metadata : List ℕ) (level : ℕ) (s : Scratch)
      → Rewired
          (append_node index id vec metadata level)
          (insert ops index id vec metadata level s).0
  unfolding insert
  insert-Rewired index id vec metadata level s = elim (Bool-cases (index.num_vectors == 0)) [
    | inl e ↦ rw e refl
    | inr e ↦
        rw e (
          link_node-Rewired (append_node index id vec metadata level) vec index.num_vectors level s)
  ]
