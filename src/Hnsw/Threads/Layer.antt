-- ===== src/Hnsw/Threads/Layer.antt =====
-- src/hnsw.cpp: a step of `search_layer_` under other threads holds on to nodes of the index.
use neuraldatabase.Prelude.{
  ℕ, zero, suc, ◌+◌, ◌<◌, ◌≡◌, inl, inr, List, [], ◌∷◌, arith, All, All-map, Bool-cases, List-cases,
  subst, length, ltb, leb, ◌||◌, map, min,
}
use neuraldatabase.Float.{Float, float_lt, float_neg}
use neuraldatabase.Kernels.{Arith}
use neuraldatabase.Ranking.{Scored}
use neuraldatabase.Ranking.Sorted.{All-sort_desc}
use neuraldatabase.Hnsw.State.{HnswConfig, HnswIndex, links}
use neuraldatabase.Hnsw.Queue.{pair_lt, larger, push}
use neuraldatabase.Hnsw.Layer.{
  Scratch, Beam, visited, worst_of, consider, closed, start, drain, node_similarity,
}
use neuraldatabase.Hnsw.Layer.Results.{All-push, All-trim}
use neuraldatabase.Hnsw.Layer.Tags.{IsScratch, next_tag-IsFresh, mark-IsScratch}
use neuraldatabase.Hnsw.Layer.Hits.{IsClosed, turn}
use neuraldatabase.Hnsw.Insert.{closest}
use neuraldatabase.Hnsw.Insert.Connect.{select_neighbours-All, length-select_neighbours}
use neuraldatabase.Hnsw.Insert.Preserve.{closest-lt}
use neuraldatabase.Hnsw.Threads.{
  Phase, entering, tagged, scanning, Progress, running, returned, overrun, Purpose, to_link,
  to_answer, Caller, descending, choosing, bottom, entry_of, connect_from, descend_from, resume,
  carry_on, advance_layer,
}
use neuraldatabase.Hnsw.Threads.Bounds.{IsInside, IsPhase, IsPurpose, IsCaller, IsTask}

abbrev pub IsProgress : (nv entry : ℕ) → Progress → Type 0
IsProgress nv entry (running phase) = IsPhase nv entry phase
IsProgress nv entry (returned xs s) = All (λ x. x.1 < nv) xs × IsScratch s
IsProgress nv entry overrun = Unit

drain-All :
    (nv : ℕ) (xs : List (Scored ℕ)) → All (λ x. x.1 < nv) xs → All (λ x. x.1 < nv) (drain xs)
unfolding drain
drain-All nv xs h = All-sort_desc (λ x. x.1 < nv) (map turn xs) (All-map (λ x. x.1 < nv) turn xs h)

module _ (similarity : ℕ → Float) (neighbours : ℕ → List ℕ) (ef nv : ℕ) where
  consider-IsInside :
      (b : Beam) (nb : ℕ)
      → nb < nv
      → IsInside nv b
      → IsInside nv (consider similarity neighbours ef b nb)
  unfolding consider
  consider-IsInside b nb lt v =
      let x : Scored ℕ = (float_neg (similarity nb), nb) in
      let valid = mark-IsScratch b.scratch nb v.valid in
      elim (Bool-cases
        (float_lt (worst_of b.results) (similarity nb) || ltb (length b.results) ef)) [
          | inl e ↦ rw e (record {
            valid = valid;
            pending = All-push pair_lt x (λ y. y.1 < nv) b.cands lt v.pending;
            found =
                All-trim (λ y. y.1 < nv) ef (push larger x b.results)
                  (All-push larger x (λ y. y.1 < nv) b.results lt v.found);
          })
          | inr e ↦ rw e (record { valid = valid; pending = v.pending; found = v.found })
        ]

  start-IsInside :
      (entry : ℕ) (s : Scratch)
      → entry < nv
      → IsScratch s
      → IsInside nv (start similarity neighbours ef entry s)
  unfolding start
  start-IsInside entry s lt v = record {
    valid = mark-IsScratch s entry v;
    pending = (lt, tt);
    found = (lt, tt);
  }

module _ (ops : Arith Float) (index : HnswIndex) (query : List Float) (entry ef layer : ℕ)
    (closed' : IsClosed ops index query) (lt : entry < index.num_vectors) where
  -- A step of a layer search takes what it adds from the index as it is at the step.
  pub advance_layer-IsProgress :
      (phase : Phase)
      → IsPhase index.num_vectors entry phase
      → IsProgress index.num_vectors entry (advance_layer ops index query entry ef layer phase)
  unfolding advance_layer
  advance_layer-IsProgress (entering s) v =
      let f = next_tag-IsFresh index.num_vectors s v in (f.valid, omega (arith, f.roomy))
  advance_layer-IsProgress (tagged s) v = elim (Bool-cases (leb (length s.visited_buf) entry)) [
    | inl e ↦ rw e tt
    | inr e ↦ rw e (start-IsInside _ _ ef index.num_vectors entry s lt v.0, tt)
  ]
  advance_layer-IsProgress (scanning b []) v = elim (List-cases b.cands) [
    | inl e ↦ rw e (drain-All index.num_vectors b.results (v.0).found, (v.0).valid)
    | inr (c, cands, e) ↦
        let pending = subst (All (λ (x : Scored ℕ). x.1 < index.num_vectors)) e (v.0).pending in
        elim (Bool-cases (
          closed (node_similarity ops index query) (λ n. links index.graph n layer) ef c
            b.results)) [
              | inl shut ↦
                  rw (e, shut) (drain-All index.num_vectors b.results (v.0).found, (v.0).valid)
              | inr opens ↦
                  rw (e, opens)
                    (
                      record { valid = (v.0).valid; pending = pending.1; found = (v.0).found },
                      closed' c.1 layer,
                    )
            ]
  ]
  advance_layer-IsProgress (scanning b (nb ∷ nbs)) v =
      elim (Bool-cases (leb (length b.scratch.visited_buf) nb)) [
        | inl e ↦ rw e tt
        | inr e ↦ elim (Bool-cases (visited b.scratch nb)) [
          | inl seen ↦ rw (e, seen) (v.0, v.1.1)
          | inr fresh ↦
              rw (e, fresh) (consider-IsInside _ _ ef index.num_vectors b nb v.1.0 v.0, v.1.1)
        ]
      ]

module _ (dim m nv : ℕ) where
  pub connect_from-IsTask :
      (query : List Float) (q level n ep : ℕ) (s : Scratch)
      → q < nv
      → ep < nv
      → IsScratch s
      → IsTask dim m nv (connect_from query q level n ep s)
  unfolding connect_from
  connect_from-IsTask query q level zero ep s hq lt v = (v, hq)
  connect_from-IsTask query q level (suc lc) ep s hq lt v = ((hq, lt), v)

  pub descend_from-IsTask :
      (p : Purpose) (query : List Float) (level n ep : ℕ) (s : Scratch)
      → IsPurpose nv p
      → ep < nv
      → IsScratch s
      → IsTask dim m nv (descend_from p query level n ep s)
  unfolding descend_from
  descend_from-IsTask p query level (suc n) ep s h lt v = ((h, lt), v)
  descend_from-IsTask (to_link q top) query level zero ep s h lt v =
      connect_from-IsTask query q level (min level top + 1) ep s h lt v
  descend_from-IsTask (to_answer k) query level zero ep s h lt v = (lt, v)

  pub carry_on-IsTask :
      (cfg : HnswConfig) (c : Caller) (p : Progress)
      → cfg.m ≡ m
      → IsCaller nv c
      → IsProgress nv (entry_of c) p
      → IsTask dim m nv (carry_on cfg c p)
  unfolding carry_on resume
  carry_on-IsTask cfg c (running phase) e h v = (h, v)
  carry_on-IsTask cfg (descending p query level n ep) (returned xs s) e h v =
      descend_from-IsTask p query level n (closest xs ep) s h.0 (closest-lt nv ep xs v.0 h.1) v.1
  carry_on-IsTask cfg (choosing query q level lc ep) (returned xs s) e h v = (
    v.1,
    h.0,
    closest-lt nv ep xs v.0 h.1,
    select_neighbours-All (λ n. n < nv) xs cfg.m v.0,
    omega (arith, length-select_neighbours xs cfg.m),
  )
  carry_on-IsTask cfg (bottom query k ep) (returned xs s) e h v = (v.1, v.0)
  carry_on-IsTask cfg c overrun e h v = tt
