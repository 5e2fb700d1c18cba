-- ===== src/Hnsw/Insert/Preserve.antt =====
-- src/hnsw.cpp: `insert` keeps an index in order.
use neuraldatabase.Prelude.{
  ℕ, zero, suc, ◌+◌, ◌-◌, ◌≤◌, ◌<◌, ◌≡◌, sym, ap, subst, inl, inr, false, List, [], ◌∷◌, arith, All,
  All-imp, Bool-cases, length, length-append, length-take, replicate, min, max, ltb, ◌==◌, take,
}
use neuraldatabase.Float.{Float}
use neuraldatabase.Kernels.{Arith}
use neuraldatabase.Ranking.{Scored}
use neuraldatabase.Hnsw.State.{HnswConfig, HnswIndex, links, set_links}
use neuraldatabase.Hnsw.Links.{links-append}
use neuraldatabase.Hnsw.Layer.{Scratch, search_layer}
use neuraldatabase.Hnsw.Layer.Tags.{IsScratch}
use neuraldatabase.Hnsw.Layer.Hits.{IsClosed, search_layer-in_range, search_layer-IsScratch}
use neuraldatabase.Hnsw.Invariant.{IsGraph, IsIndex}
use neuraldatabase.Hnsw.Insert.{
  select_neighbours, append_node, closest, max_links, descend, connect_all, connect_layers,
  raise_entry, link_node, insert,
}
use neuraldatabase.Hnsw.Insert.Connect.{
  select_neighbours-All, length-select_neighbours, set_links-IsGraph, connect_all-IsGraph,
}
use neuraldatabase.Hnsw.Insert.Arrays.{connect_all-graph, connect_layers-graph, insert-Rewired}

pub closest-lt :
    (nv ep : ℕ) (xs : List (Scored ℕ)) → All (λ x. x.1 < nv) xs → ep < nv → closest xs ep < nv
unfolding closest
closest-lt nv ep [] h k = k
closest-lt nv ep (x ∷ xs) h k = h.0

pub m-le-max_links : (cfg : HnswConfig) (lc : ℕ) → cfg.m ≤ max_links cfg lc
unfolding max_links
m-le-max_links cfg lc = ground arith

-- the graph and the thread's buffer, after linking
abbrev AreLinked : HnswConfig → ℕ → HnswIndex × Scratch → Type 0
AreLinked cfg nv r = IsGraph cfg nv (r.0).graph × IsScratch r.1

-- and the entry point too
abbrev AreInPlace : HnswConfig → ℕ → HnswIndex × Scratch → Type 0
AreInPlace cfg nv r = AreLinked cfg nv r × ((r.0).entry_point < nv)

raise_entry-lt :
    (cfg : HnswConfig) (nv : ℕ) (index : HnswIndex) (q level : ℕ) (s : Scratch)
    → q < nv
    → AreInPlace cfg nv (index, s)
    → AreInPlace cfg nv (raise_entry index q level, s)
unfolding raise_entry
raise_entry-lt cfg nv index q level s hq h = elim (Bool-cases (ltb index.max_layer level)) [
  | inl e ↦ rw e (h.0, hq)
  | inr e ↦ rw e h
]

module _ (ops : Arith Float) (query : List Float) where
  -- The descent stays in the graph.
  pub descend-lt :
      (index : HnswIndex) (level n ep : ℕ) (s : Scratch)
      → IsClosed ops index query
      → ep < index.num_vectors
      → IsScratch s
      → ((descend ops index query level n (ep, s)).0 < index.num_vectors)
        × IsScratch (descend ops index query level n (ep, s)).1
  unfolding descend
  descend-lt index level zero ep s closed lt v = (lt, v)
  descend-lt index level (suc n) ep s closed lt v =
      let (xs, s') = search_layer ops index query ep 1 (level + suc n) s in
      descend-lt index level n (closest xs ep) s' closed
        (closest-lt index.num_vectors ep xs
          (search_layer-in_range ops index query ep 1 (level + suc n) s (omega arith) closed lt v)
          lt)
        (search_layer-IsScratch ops index query ep 1 (level + suc n) s (omega arith) closed lt v)

  connect_layers-IsGraph :
      (index : HnswIndex) (q n ep : ℕ) (s : Scratch)
      → 0 < index.cfg.m
      → q < index.num_vectors
      → ep < index.num_vectors
      → IsGraph index.cfg index.num_vectors index.graph
      → IsScratch s
      → AreLinked index.cfg index.num_vectors (connect_layers ops index query q n (ep, s))
  unfolding connect_layers
  connect_layers-IsGraph index q zero ep s pos hq lt g v = (g, v)
  connect_layers-IsGraph index q (suc lc) ep s pos hq lt g v =
      let nv = index.num_vectors in
      let ef = max index.cfg.ef_construction index.cfg.m in
      let p : 0 < ef = omega arith in
      let (xs, s') = search_layer ops index query ep ef lc s in
      let near = search_layer-in_range ops index query ep ef lc s p g.in_range lt v in
      let v' = search_layer-IsScratch ops index query ep ef lc s p g.in_range lt v in
      let nbs = select_neighbours xs index.cfg.m in
      let linked : HnswIndex = record index { graph = set_links index.graph q lc nbs } in
      let g' =
        set_links-IsGraph index.cfg nv index.graph q lc nbs g
          (select_neighbours-All (λ m. m < nv) xs index.cfg.m near)
          (omega (arith, length-select_neighbours xs index.cfg.m, m-le-max_links index.cfg lc)) in
      let connected : HnswIndex = record index {
        graph = (connect_all ops linked q lc nbs).graph;
      } in
      let g'' = connect_all-IsGraph ops linked q lc nbs hq g' in
      subst (λ i. AreLinked index.cfg nv (connect_layers ops i query q lc (closest xs ep, s')))
        (sym (connect_all-graph ops linked q lc nbs))
        (connect_layers-IsGraph connected q lc (closest xs ep) s' pos hq
          (closest-lt nv ep xs near lt) g'' v')

  link_node-IsGraph :
      (index : HnswIndex) (q level : ℕ) (s : Scratch)
      → 0 < index.cfg.m
      → q < index.num_vectors
      → index.entry_point < index.num_vectors
      → IsGraph index.cfg index.num_vectors index.graph
      → IsScratch s
      → AreInPlace index.cfg index.num_vectors (link_node ops index query q level s)
  unfolding link_node
  link_node-IsGraph index q level s pos hq lt g v =
      let top = index.max_layer in
      let (ep, s') = descend ops index query level (top - level) (index.entry_point, s) in
      let d = descend-lt index level (top - level) index.entry_point s g.in_range lt v in
      let layers = min level top + 1 in
      let (linked, s'') = connect_layers ops index query q layers (ep, s') in
      let at : linked.entry_point ≡ index.entry_point =
        ap (λ (i : HnswIndex). i.entry_point)
          (connect_layers-graph ops index query q layers ep s') in
      raise_entry-lt index.cfg index.num_vectors linked q level s'' hq
        (connect_layers-IsGraph index q layers ep s' pos hq d.0 g d.1, rw at lt)

pub append_node-IsGraph :
    (index : HnswIndex) (id : ℕ) (vec : List Float) (metadata : List ℕ) (level : ℕ)
    → IsGraph index.cfg index.num_vectors index.graph
    → IsGraph index.cfg (index.num_vectors + 1) (append_node index id vec metadata level).graph
unfolding append_node
append_node-IsGraph index id vec metadata level g = record {
  nodes = omega (arith, length-append index.graph (replicate (level + 1) [] ∷ []), g.nodes);
  in_range = λ n lc. rw (links-append index.graph (level + 1) n lc) (
      All-imp (λ m. m < index.num_vectors) (λ m. m < index.num_vectors + 1) (λ m h. omega arith)
        (links index.graph n lc) (g.in_range n lc));
  degree = λ n lc. rw (links-append index.graph (level + 1) n lc) (g.degree n lc);
}

module _ (ops : Arith Float) (index : HnswIndex) (id : ℕ) (vec : List Float) (metadata : List ℕ)
    (level : ℕ) (s : Scratch) (pos : 0 < index.cfg.m) (v : IsScratch s) (h : IsIndex index) where
  insert-AreInPlace :
      AreInPlace index.cfg (index.num_vectors + 1) (insert ops index id vec metadata level s)
  unfolding insert append_node
  insert-AreInPlace =
      let g = append_node-IsGraph index id vec metadata level h.graph in
      elim (Bool-cases (index.num_vectors == 0)) [
        | inl e ↦ rw e ((g, v), omega arith)
        | inr e ↦
            let some_node : 0 < index.num_vectors = ground arith in
            rw e (
              link_node-IsGraph ops vec (append_node index id vec metadata level) index.num_vectors
                level s pos (omega arith) (omega (arith, h.entry some_node)) g v)
      ]

  -- An insertion keeps every array at the number of vectors, every link in the graph, every list
  -- within its bound and the entry point in range; the thread's buffer stays fit for use.
  pub insert-IsIndex :
      index.dim ≤ length vec
      → IsIndex (insert ops index id vec metadata level s).0
        × IsScratch (insert ops index id vec metadata level s).1
  unfolding append_node
  insert-IsIndex fits =
      let p = insert-AreInPlace in
      (
        subst IsIndex (sym (insert-Rewired ops index id vec metadata level s)) (record {
          ids = omega (arith, length-append index.id_map (id ∷ []), h.ids);
          texts = omega (arith, length-append index.metadata (metadata ∷ []), h.texts);
          marks = omega (arith, length-append index.tombstone (false ∷ []), h.marks);
          floats = omega (
            arith,
            length-append index.raw_vectors (take index.dim vec),
            length-take index.dim vec,
            h.floats,
          );
          graph = p.0.0;
          entry = λ _. p.1;
        }),
        p.0.1,
      )
