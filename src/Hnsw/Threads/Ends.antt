-- ===== src/Hnsw/Threads/Ends.antt =====
-- src/hnsw.cpp: no call goes on for ever, whatever the other threads do to the index in between. The locks themselves are taken to be granted.
use neuraldatabase.Prelude.{
  ℕ, zero, suc, ◌+◌, ◌≤◌, ◌<◌, ◌≡◌, refl, ap, ◌⊎◌, ◌∙◌, inl, inr, Bool, true, false, List, [], ◌∷◌,
  arith, Bool-cases, List-cases, Option-cases, length, length-set, leb, ltb, ◌==◌, ◌||◌, min,
}
use neuraldatabase.Float.{Float, float_lt}
use neuraldatabase.Kernels.{Arith}
use neuraldatabase.Ranking.{Scored}
use neuraldatabase.Hnsw.State.{HnswConfig, HnswIndex, links}
use neuraldatabase.Hnsw.Layer.{
  Scratch, Beam, visited, worst_of, consider, closed, next_tag, node_similarity,
}
use neuraldatabase.Hnsw.Layer.Loop.{unseen, measure, consider-measure}
use neuraldatabase.Hnsw.Insert.{closest}
use neuraldatabase.Hnsw.Threads.{
  Phase, entering, tagged, scanning, Purpose, to_link, to_answer, Caller, descending, choosing,
  bottom, Task, appending, reading_entry, in_layer, storing, linking, raising, deleting, querying,
  reading_live, collecting, finished, answered, out_of_bounds, query_of, entry_of, ef_of, layer_of,
  live_among, begin_search, connect_from, descend_from, resume, carry_on, advance_layer, advance,
}

-- `insert`, `delete_vector` or `search` has returned.
abbrev pub has_returned : Task → Bool
has_returned (finished s) = true
has_returned (answered xs s) = true
has_returned _ = false

-- The call has returned, or an access has left `visited_buf`, of which nothing more is said.
abbrev pub HasStopped : Task → Type 0
HasStopped t = (has_returned t ≡ true) ⊎ (t ≡ out_of_bounds)

-- `n` steps of one thread, which finds the index as `world` says at each of them
unfoldable pub follow : Arith Float → (world : ℕ → HnswIndex) → ℕ → Task → Task
follow ops world zero t = t
follow ops world (suc n) t = follow ops (λ i. world (suc i)) n (advance ops (world 0) t).1

module _ (ops : Arith Float) where
  data Finishes : Task → Type 0 where
    over : {t : Task} → HasStopped t → Finishes t
    moves : {t : Task} → ((index : HnswIndex) → Finishes (advance ops index t).1) → Finishes t

  considered : HnswIndex → Caller → Beam → ℕ → Beam
  considered index c =
      consider (node_similarity ops index (query_of c)) (λ n. links index.graph n (layer_of c))
        (ef_of index.cfg c)

  length-considered :
      (index : HnswIndex) (c : Caller) (b : Beam) (nb : ℕ)
      → length (considered index c b nb).scratch.visited_buf ≡ length b.scratch.visited_buf
  unfolding considered consider
  length-considered index c b nb =
      let size = length-set b.scratch.visited_buf nb b.scratch.visit_tag in
      elim (Bool-cases (
        float_lt (worst_of b.results) (node_similarity ops index (query_of c) nb)
        || ltb (length b.results) (ef_of index.cfg c))) [ inl e ↦ rw e size | inr e ↦ rw e size ]

  module _ (c : Caller)
      (next : (cfg : HnswConfig) (xs : List (Scored ℕ)) (s : Scratch)
        → Finishes (resume cfg c xs s)) where
    -- A round takes a candidate, or a neighbour; a node becomes a candidate once at most.
    scanning-Finishes :
        (nv fuel : ℕ) (b : Beam) (nbs : List ℕ)
        → length b.scratch.visited_buf ≡ nv
        → length b.cands + unseen b.scratch nv ≤ fuel
        → Finishes (in_layer c (scanning b nbs))
    unfolding advance advance_layer carry_on considered measure
    scanning-Finishes nv zero b [] size fits = moves (λ index. elim (List-cases b.cands) [
      | inl e ↦ rw e (next index.cfg _ b.scratch)
      | inr (x, cands, e) ↦ absurd (omega (arith, ap (length {A = Scored ℕ}) e))
    ])
    scanning-Finishes nv (suc fuel) b [] size fits = moves (λ index. elim (List-cases b.cands) [
      | inl e ↦ rw e (next index.cfg _ b.scratch)
      | inr (x, cands, e) ↦
          elim (Bool-cases (
            closed (node_similarity ops index (query_of c)) (λ n. links index.graph n (layer_of c))
              (ef_of index.cfg c) x b.results)) [
                | inl shut ↦ rw (e, shut) (next index.cfg _ b.scratch)
                | inr opens ↦
                    rw (e, opens)
                      (scanning-Finishes nv fuel (record b { cands = cands })
                        (links index.graph x.1 (layer_of c)) size
                        (omega (arith, ap (length {A = Scored ℕ}) e)))
              ]
    ])
    scanning-Finishes nv fuel b (nb ∷ nbs) size fits = moves (λ index.
        elim (Bool-cases (leb (length b.scratch.visited_buf) nb)) [
          | inl e ↦ rw e (over (inr refl))
          | inr e ↦ elim (Bool-cases (visited b.scratch nb)) [
            | inl seen ↦ rw (e, seen) (scanning-Finishes nv fuel b nbs size fits)
            | inr fresh ↦
                let sim = node_similarity ops index (query_of c) in
                let near = λ (n : ℕ). links index.graph n (layer_of c) in
                let lt : nb < nv = ground arith in
                let less =
                  consider-measure sim near (ef_of index.cfg c) nv b nb lt (omega arith) fresh in
                rw (e, fresh)
                  (scanning-Finishes nv fuel (considered index c b nb) nbs
                    (length-considered index c b nb ∙ size) (omega (arith, less)))
          ]
        ])

    loop-Finishes : (b : Beam) (nbs : List ℕ) → Finishes (in_layer c (scanning b nbs))
    loop-Finishes b nbs =
        let nv = length b.scratch.visited_buf in
        scanning-Finishes nv (length b.cands + unseen b.scratch nv) b nbs refl (omega arith)

    tagged-Finishes : (s : Scratch) → Finishes (in_layer c (tagged s))
    unfolding advance advance_layer carry_on
    tagged-Finishes s = moves (λ index.
        elim (Bool-cases (leb (length s.visited_buf) (entry_of c))) [
          | inl e ↦ rw e (over (inr refl))
          | inr e ↦ rw e (loop-Finishes _ [])
        ])

    layer-Finishes : (s : Scratch) → Finishes (in_layer c (entering s))
    unfolding advance advance_layer carry_on
    layer-Finishes s = moves (λ index. tagged-Finishes (next_tag index.num_vectors s))

  raising-Finishes : (q level : ℕ) (s : Scratch) → Finishes (raising q level s)
  unfolding advance
  raising-Finishes q level s = moves (λ index. over (inl refl))

  linking-Finishes :
      (query : List Float) (q level lc : ℕ) (nbs : List ℕ) (ep : ℕ) (s : Scratch)
      → Finishes (connect_from query q level lc ep s)
      → Finishes (linking query q level lc nbs ep s)
  unfolding advance
  linking-Finishes query q level lc [] ep s h = moves (λ index. h)
  linking-Finishes query q level lc (nb ∷ nbs) ep s h =
      moves (λ index. linking-Finishes query q level lc nbs ep s h)

  connect_from-Finishes :
      (query : List Float) (q level n ep : ℕ) (s : Scratch)
      → Finishes (connect_from query q level n ep s)
  unfolding connect_from advance resume
  connect_from-Finishes query q level zero ep s = raising-Finishes q level s
  connect_from-Finishes query q level (suc lc) ep s =
      layer-Finishes (choosing query q level lc ep)
        (λ cfg xs s'. moves (λ index.
          linking-Finishes query q level lc _ (closest xs ep) s'
            (connect_from-Finishes query q level lc (closest xs ep) s')))
        s

  collecting-Finishes : (k : ℕ) (xs : List (Scored ℕ)) (s : Scratch) → Finishes (collecting k xs s)
  unfolding advance
  collecting-Finishes k xs s = moves (λ index. over (inl refl))

  descend_from-Finishes :
      (p : Purpose) (query : List Float) (level n ep : ℕ) (s : Scratch)
      → Finishes (descend_from p query level n ep s)
  unfolding descend_from resume
  descend_from-Finishes p query level (suc n) ep s =
      layer-Finishes (descending p query level n ep)
        (λ cfg xs s'. descend_from-Finishes p query level n (closest xs ep) s') s
  descend_from-Finishes (to_link q top) query level zero ep s =
      connect_from-Finishes query q level (min level top + 1) ep s
  descend_from-Finishes (to_answer k) query level zero ep s =
      layer-Finishes (bottom query k ep) (λ cfg xs s'. collecting-Finishes k xs s') s

  resume-Finishes :
      (cfg : HnswConfig) (c : Caller) (xs : List (Scored ℕ)) (s : Scratch)
      → Finishes (resume cfg c xs s)
  unfolding resume advance
  resume-Finishes cfg (descending p query level n ep) xs s =
      descend_from-Finishes p query level n (closest xs ep) s
  resume-Finishes cfg (choosing query q level lc ep) xs s = moves (λ index.
      linking-Finishes query q level lc _ (closest xs ep) s
        (connect_from-Finishes query q level lc (closest xs ep) s))
  resume-Finishes cfg (bottom query k ep) xs s = collecting-Finishes k xs s

  phase-Finishes : (c : Caller) (phase : Phase) → Finishes (in_layer c phase)
  phase-Finishes c (entering s) = layer-Finishes c (λ cfg xs s'. resume-Finishes cfg c xs s') s
  phase-Finishes c (tagged s) = tagged-Finishes c (λ cfg xs s'. resume-Finishes cfg c xs s') s
  phase-Finishes c (scanning b nbs) =
      loop-Finishes c (λ cfg xs s'. resume-Finishes cfg c xs s') b nbs

  reading_live-Finishes :
      (query : List Float) (k nv : ℕ) (s : Scratch) → Finishes (reading_live query k nv s)
  unfolding advance begin_search
  reading_live-Finishes query k nv s = moves (λ index. elim (Option-cases (live_among index nv)) [
    | inl e ↦ rw e (over (inl refl))
    | inr (ep, e) ↦ rw e (descend_from-Finishes (to_answer k) query 0 index.max_layer ep s)
  ])

  reading_entry-Finishes :
      (vec : List Float) (q level : ℕ) (s : Scratch) → Finishes (reading_entry vec q level s)
  unfolding advance
  reading_entry-Finishes vec q level s =
      moves (λ index. descend_from-Finishes (to_link q index.max_layer) vec level _ _ s)

  task-Finishes : (t : Task) → Finishes t
  unfolding advance
  task-Finishes (appending id vec metadata level s) = moves (λ index.
      elim (Bool-cases (index.num_vectors == 0)) [
        | inl e ↦ rw e (over (inl refl))
        | inr e ↦ rw e (reading_entry-Finishes vec index.num_vectors level s)
      ])
  task-Finishes (reading_entry vec q level s) = reading_entry-Finishes vec q level s
  task-Finishes (in_layer c phase) = phase-Finishes c phase
  task-Finishes (storing query q level lc nbs ep s) = moves (λ index.
      linking-Finishes query q level lc nbs ep s (connect_from-Finishes query q level lc ep s))
  task-Finishes (linking query q level lc nbs ep s) =
      linking-Finishes query q level lc nbs ep s (connect_from-Finishes query q level lc ep s)
  task-Finishes (raising q level s) = raising-Finishes q level s
  task-Finishes (deleting id s) = moves (λ index. over (inl refl))
  task-Finishes (querying query k s) = moves (λ index. elim (Bool-cases (index.num_vectors == 0)) [
    | inl e ↦ rw e (over (inl refl))
    | inr e ↦ rw e (reading_live-Finishes query k index.num_vectors s)
  ])
  task-Finishes (reading_live query k nv s) = reading_live-Finishes query k nv s
  task-Finishes (collecting k xs s) = collecting-Finishes k xs s
  task-Finishes (finished s) = over (inl refl)
  task-Finishes (answered xs s) = over (inl refl)
  task-Finishes out_of_bounds = over (inr refl)

  Finishes-follow :
      (world : ℕ → HnswIndex) {t : Task} → Finishes t → (n : ℕ) × HasStopped (follow ops world n t)
  unfolding follow
  Finishes-follow world (over h) = (0, h)
  Finishes-follow world (moves f) =
      let (n, h) = Finishes-follow (λ i. world (suc i)) (f (world 0)) in (suc n, h)

  -- Wherever a thread stands, and in whatever state it finds the index at each of its steps, after
  -- finitely many of them its call has returned or has left its visit buffer.
  pub follow-stops :
      (world : ℕ → HnswIndex) (t : Task) → (n : ℕ) × HasStopped (follow ops world n t)
  follow-stops world t = Finishes-follow world (task-Finishes t)
