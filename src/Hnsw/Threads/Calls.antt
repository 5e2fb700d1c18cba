-- ===== src/Hnsw/Threads/Calls.antt =====
-- src/hnsw.cpp: a whole insertion, and a whole search, by the steps of one thread.
use neuraldatabase.Prelude.{
  ℕ, zero, suc, ◌+◌, ◌-◌, ◌<◌, ◌≡◌, refl, sym, subst, inl, inr, List, [], ◌∷◌, arith, Bool-cases,
  Option-cases, ◌==◌, min, max,
}
use neuraldatabase.Float.{Float}
use neuraldatabase.Kernels.{Arith}
use neuraldatabase.Hnsw.State.{HnswIndex, set_links}
use neuraldatabase.Hnsw.Layer.{Scratch, search_layer}
use neuraldatabase.Hnsw.Layer.Tags.{IsScratch}
use neuraldatabase.Hnsw.Layer.Hits.{IsClosed, search_layer-in_range, search_layer-IsScratch}
use neuraldatabase.Hnsw.Invariant.{IsGraph, IsIndex}
use neuraldatabase.Hnsw.Insert.{
  select_neighbours, append_node, closest, descend, connect_back, connect_all, connect_layers,
  raise_entry, link_node, insert,
}
use neuraldatabase.Hnsw.Insert.Connect.{
  select_neighbours-All, length-select_neighbours, set_links-IsGraph, connect_all-IsGraph,
}
use neuraldatabase.Hnsw.Insert.Arrays.{connect_all-graph}
use neuraldatabase.Hnsw.Insert.Preserve.{
  closest-lt, m-le-max_links, append_node-IsGraph, descend-lt,
}
use neuraldatabase.Hnsw.Query.{live_entry, search}
use neuraldatabase.Hnsw.Query.Answer.{live_entry-lt}
use neuraldatabase.Hnsw.Threads.{
  Purpose, to_link, to_answer, descending, choosing, bottom, Task, appending, reading_entry,
  linking, querying, finished, answered, connect_from, descend_from, resume, live_among,
  begin_search, advance,
}
use neuraldatabase.Hnsw.Threads.Alone.{Leads, Leads-now, Leads-trans, Leads-step, layer-Leads}

module _ (ops : Arith Float) where
  linking-Leads :
      (index : HnswIndex) (query : List Float) (q level lc : ℕ) (nbs : List ℕ) (ep : ℕ)
      (s : Scratch)
      → Leads ops
          (index, linking query q level lc nbs ep s)
          (connect_all ops index q lc nbs, connect_from query q level lc ep s)
  unfolding connect_all advance
  linking-Leads index query q level lc [] ep s = Leads-step ops _ _ (Leads-now ops _)
  linking-Leads index query q level lc (nb ∷ nbs) ep s =
      Leads-step ops _ _ (linking-Leads (connect_back ops index q lc nb) query q level lc nbs ep s)

  module _ (index : HnswIndex) (query : List Float) (shut : IsClosed ops index query) (p : Purpose)
      (level : ℕ) where
    -- The descent, to where its caller goes on.
    descend-Leads :
        (n ep : ℕ) (s : Scratch)
        → ep < index.num_vectors
        → IsScratch s
        → Leads ops
            (index, descend_from p query level n ep s)
            (
              index,
              descend_from p query level 0
                  (descend ops index query level n (ep, s)).0
                  (descend ops index query level n (ep, s)).1,
            )
    unfolding descend descend_from resume
    descend-Leads zero ep s lt v = Leads-now ops _
    descend-Leads (suc n) ep s lt v =
        let lc = level + suc n in
        let (xs, s') = search_layer ops index query ep 1 lc s in
        let near = search_layer-in_range ops index query ep 1 lc s (omega arith) shut lt v in
        let v' = search_layer-IsScratch ops index query ep 1 lc s (omega arith) shut lt v in
        Leads-trans ops _ _ _
          (layer-Leads ops index (descending p query level n ep) shut (omega arith) lt s v)
          (descend-Leads n (closest xs ep) s' (closest-lt index.num_vectors ep xs near lt) v')

  connect_layers-Leads :
      (index : HnswIndex) (query : List Float) (q level n ep : ℕ) (s : Scratch)
      → 0 < index.cfg.m
      → q < index.num_vectors
      → ep < index.num_vectors
      → IsGraph index.cfg index.num_vectors index.graph
      → IsScratch s
      → Leads ops
          (index, connect_from query q level n ep s)
          (
            raise_entry (connect_layers ops index query q n (ep, s)).0 q level,
            finished (connect_layers ops index query q n (ep, s)).1,
          )
  unfolding connect_layers connect_from resume advance
  connect_layers-Leads index query q level zero ep s pos hq lt g v =
      Leads-step ops _ _ (Leads-now ops _)
  connect_layers-Leads index query q level (suc lc) ep s pos hq lt g v =
      let nv = index.num_vectors in
      let ef = max index.cfg.ef_construction index.cfg.m in
      let p : 0 < ef = omega arith in
      let (xs, s') = search_layer ops index query ep ef lc s in
      let near = search_layer-in_range ops index query ep ef lc s p g.in_range lt v in
      let v' = search_layer-IsScratch ops index query ep ef lc s p g.in_range lt v in
      let nbs = select_neighbours xs index.cfg.m in
      let linked : HnswIndex = record index { graph = set_links index.graph q lc nbs } in
      let g' =
        set_links-IsGraph index.cfg nv index.graph q lc nbs g
          (select_neighbours-All (λ m. m < nv) xs index.cfg.m near)
          (omega (arith, length-select_neighbours xs index.cfg.m, m-le-max_links index.cfg lc)) in
      let connected : HnswIndex = record index {
        graph = (connect_all ops linked q lc nbs).graph;
      } in
      let rest =
        connect_layers-Leads connected query q level lc (closest xs ep) s' pos hq
          (closest-lt nv ep xs near lt) (connect_all-IsGraph ops linked q lc nbs hq g') v' in
      let done : HnswIndex → HnswIndex × Task = λ i. (
        raise_entry (connect_layers ops i query q lc (closest xs ep, s')).0 q level,
        finished (connect_layers ops i query q lc (closest xs ep, s')).1,
      ) in
      Leads-trans ops _ _ _
        (layer-Leads ops index (choosing query q level lc ep) g.in_range p lt s v)
        (Leads-step ops _ _ (
          Leads-trans ops _ _ _ (linking-Leads linked query q level lc nbs (closest xs ep) s') (
            subst
              (λ (i : HnswIndex).
                Leads ops (i, connect_from query q level lc (closest xs ep) s') (done i))
              (sym (connect_all-graph ops linked q lc nbs)) rest)))

  link_node-Leads :
      (index : HnswIndex) (query : List Float) (q level : ℕ) (s : Scratch)
      → 0 < index.cfg.m
      → q < index.num_vectors
      → index.entry_point < index.num_vectors
      → IsGraph index.cfg index.num_vectors index.graph
      → IsScratch s
      → Leads ops
          (index, reading_entry query q level s)
          (
            (link_node ops index query q level s).0,
            finished (link_node ops index query q level s).1,
          )
  unfolding link_node advance descend_from
  link_node-Leads index query q level s pos hq lt g v =
      let top = index.max_layer in
      let (ep, s') = descend ops index query level (top - level) (index.entry_point, s) in
      let d = descend-lt ops query index level (top - level) index.entry_point s g.in_range lt v in
      Leads-step ops _ _ (
        Leads-trans ops _ _ _
          (descend-Leads index query g.in_range (to_link q top) level (top - level)
            index.entry_point s lt v)
          (connect_layers-Leads index query q level (min level top + 1) ep s' pos hq d.0 g d.1))

  -- For M above 0, an insertion whose thread is alone, of an index in order, ends after some number
  -- of steps with the index and the buffer that `insert` gives.
  pub insert-alone :
      (index : HnswIndex) (id : ℕ) (vec : List Float) (metadata : List ℕ) (level : ℕ) (s : Scratch)
      → 0 < index.cfg.m
      → IsScratch s
      → IsIndex index
      → Leads ops
          (index, appending id vec metadata level s)
          (
            (insert ops index id vec metadata level s).0,
            finished (insert ops index id vec metadata level s).1,
          )
  unfolding insert advance
  insert-alone index id vec metadata level s pos v h = elim (Bool-cases (index.num_vectors == 0)) [
    | inl e ↦ Leads-step ops _ _ (rw e (Leads-now ops _))
    | inr e ↦
        let grown = append_node index id vec metadata level in
        let lt = h.entry (ground arith) in
        let g = append_node-IsGraph index id vec metadata level h.graph in
        Leads-step ops _ _ (
          rw e (
            unfold append_node in
            link_node-Leads grown vec index.num_vectors level s pos (omega arith) (omega arith) g
              v))
  ]

  -- For ef_search above 0, a search whose thread is alone ends with the answer of `search`.
  pub search-alone :
      (index : HnswIndex) (query : List Float) (k : ℕ) (s : Scratch)
      → 0 < index.cfg.ef_search
      → IsScratch s
      → IsIndex index
      → Leads ops
          (index, querying query k s)
          (index, answered (search ops index query k s).0 (search ops index query k s).1)
  unfolding search advance begin_search descend_from resume
  search-alone index query k s pos v h = elim (Bool-cases (index.num_vectors == 0)) [
    | inl e ↦ Leads-step ops _ _ (rw (e, search) (Leads-now ops _))
    | inr e ↦
        let same : live_among index index.num_vectors ≡ live_entry index =
          unfold live_among live_entry in refl in
        let some_node = h.entry (ground arith) in
        Leads-step ops _ _ (
          rw (e, search)
            (Leads-step ops _ _ (elim (Option-cases (live_entry index)) [
              | inl none' ↦ rw (same, none', search) (Leads-now ops _)
              | inr (entry, some') ↦
                  let (lt, _) = live_entry-lt index entry some_node some' in
                  let top = index.max_layer in
                  let (ep, s') = descend ops index query 0 top (entry, s) in
                  let d = descend-lt ops query index 0 top entry s (h.graph).in_range lt v in
                  rw (same, some', search)
                    (Leads-trans ops _ _ _
                      (descend-Leads index query (h.graph).in_range (to_answer k) 0 top entry s lt
                        v)
                      (Leads-trans ops _ _ _
                        (layer-Leads ops index (bottom query k ep) (h.graph).in_range pos d.0 s'
                          d.1)
                        (Leads-step ops _ _ (Leads-now ops _))))
            ])))
  ]
