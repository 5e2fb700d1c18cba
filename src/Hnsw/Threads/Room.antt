-- ===== src/Hnsw/Threads/Room.antt =====
-- src/hnsw.cpp: `visited_buf` is sized by the number of nodes when a search starts, and other threads
-- may append nodes while it runs. When is the buffer long enough?
use neuraldatabase.Prelude.{
  ℕ, zero, suc, ◌+◌, ◌-◌, ◌≤◌, ◌<◌, ◌≡◌, ◌≢◌, ◌⊎◌, subst, inl, inr, List, [], ◌∷◌, ◌++◌, false,
  arith, Bool-cases, List-cases, Option-cases, ℕ_discrete, length, length-append, length-replicate,
  length-set, replicate, ltb, leb, ◌==◌, ◌||◌, ◌%◌, ◌^◌, min, if_pos, if_neg, if◌then◌else◌,
}
use neuraldatabase.Float.{Float, float_lt}
use neuraldatabase.Kernels.{Arith}
use neuraldatabase.Hnsw.State.{HnswConfig, HnswIndex, links}
use neuraldatabase.Hnsw.Layer.{
  Scratch, Beam, next_tag, visited, worst_of, consider, closed, start, node_similarity,
}
use neuraldatabase.Hnsw.Insert.{closest}
use neuraldatabase.Hnsw.Threads.{
  Phase, entering, tagged, scanning, Progress, running, returned, overrun, Purpose, to_link,
  to_answer, Caller, descending, choosing, bottom, Task, appending, reading_entry, in_layer,
  storing, linking, raising, deleting, querying, reading_live, collecting, finished, answered,
  out_of_bounds, entry_of, query_of, ef_of, layer_of, connect_from, descend_from, resume, carry_on,
  live_among, begin_search, advance_layer, advance, System, Reach, now, later,
}
use neuraldatabase.Hnsw.Threads.Bounds.{IsPhase, IsTask}
use neuraldatabase.Hnsw.Threads.Steps.{IsSystem, entry_of-lt, step-IsSystem, Reach-IsSystem}

module _ (base top : ℕ) where
  -- Between two searches: a buffer for `top` nodes, or one that the next search will enlarge.
  abbrev pub IsAmple : Scratch → Type 0
  IsAmple s = (top ≤ length s.visited_buf) ⊎ (length s.visited_buf < base)

  abbrev pub PhaseHasRoom : Phase → Type 0
  PhaseHasRoom (entering s) = IsAmple s
  PhaseHasRoom (tagged s) = top ≤ length s.visited_buf
  PhaseHasRoom (scanning b nbs) = top ≤ length b.scratch.visited_buf

  -- The thread is not out of bounds, and its buffer has room for `top` nodes once it searches.
  abbrev pub HasRoom : Task → Type 0
  HasRoom (appending id vec metadata level s) = IsAmple s
  HasRoom (reading_entry vec q level s) = IsAmple s
  HasRoom (in_layer c phase) = PhaseHasRoom phase
  HasRoom (storing query q level lc nbs ep s) = IsAmple s
  HasRoom (linking query q level lc nbs ep s) = IsAmple s
  HasRoom (raising q level s) = IsAmple s
  HasRoom (deleting id s) = IsAmple s
  HasRoom (querying query k s) = IsAmple s
  HasRoom (reading_live query k nv s) = IsAmple s
  HasRoom (collecting k xs s) = IsAmple s
  HasRoom (finished s) = IsAmple s
  HasRoom (answered xs s) = IsAmple s
  HasRoom out_of_bounds = ⊥

  ProgressHasRoom : Progress → Type 0
  ProgressHasRoom (running phase) = PhaseHasRoom phase
  ProgressHasRoom (returned xs s) = top ≤ length s.visited_buf
  ProgressHasRoom overrun = ⊥

  connect_from-HasRoom :
      (query : List Float) (q level n ep : ℕ) (s : Scratch)
      → IsAmple s
      → HasRoom (connect_from query q level n ep s)
  unfolding connect_from
  connect_from-HasRoom query q level zero ep s h = h
  connect_from-HasRoom query q level (suc lc) ep s h = h

  descend_from-HasRoom :
      (p : Purpose) (query : List Float) (level n ep : ℕ) (s : Scratch)
      → IsAmple s
      → HasRoom (descend_from p query level n ep s)
  unfolding descend_from
  descend_from-HasRoom p query level (suc n) ep s h = h
  descend_from-HasRoom (to_link q nodes) query level zero ep s h =
      connect_from-HasRoom query q level (min level nodes + 1) ep s h
  descend_from-HasRoom (to_answer k) query level zero ep s h = h

  carry_on-HasRoom :
      (cfg : HnswConfig) (c : Caller) (p : Progress)
      → ProgressHasRoom p
      → HasRoom (carry_on cfg c p)
  unfolding carry_on resume ProgressHasRoom
  carry_on-HasRoom cfg c (running phase) h = h
  carry_on-HasRoom cfg (descending p query level n ep) (returned xs s) h =
      descend_from-HasRoom p query level n (closest xs ep) s (inl h)
  carry_on-HasRoom cfg (choosing query q level lc ep) (returned xs s) h = inl h
  carry_on-HasRoom cfg (bottom query k ep) (returned xs s) h = inl h
  carry_on-HasRoom cfg c overrun h = h

  length-next_tag :
      (nv : ℕ) (s : Scratch)
      → base ≤ nv
      → top ≤ base + 10000
      → IsAmple s
      → top ≤ length (next_tag nv s).visited_buf
  unfolding next_tag
  length-next_tag nv s le near h =
      let more = replicate {A = ℕ} (nv + 10000 - length s.visited_buf) 0 in
      let buf = if ltb (length s.visited_buf) nv then s.visited_buf ++ more else s.visited_buf in
      let size : top ≤ length buf = ground (
        arith,
        length-append s.visited_buf more,
        length-replicate {A = ℕ} (nv + 10000 - length s.visited_buf) 0,
      ) in
      elim (Bool-cases ((s.visit_tag + 1) % 2 ^ 16 == 0)) [
        | inl e ↦ rw e (omega (arith, length-replicate {A = ℕ} (length buf) 0))
        | inr e ↦ rw e size
      ]

  length-consider :
      (similarity : ℕ → Float) (neighbours : ℕ → List ℕ) (ef : ℕ) (b : Beam) (nb : ℕ)
      → length (consider similarity neighbours ef b nb).scratch.visited_buf
        ≡ length b.scratch.visited_buf
  unfolding consider
  length-consider similarity neighbours ef b nb =
      let size = length-set b.scratch.visited_buf nb b.scratch.visit_tag in
      elim (Bool-cases
        (float_lt (worst_of b.results) (similarity nb) || ltb (length b.results) ef)) [
          | inl e ↦ rw e size
          | inr e ↦ rw e size
        ]

  module _ (ops : Arith Float) (index : HnswIndex) (le : base ≤ index.num_vectors)
      (most : index.num_vectors ≤ top) (near : top ≤ base + 10000) where
    advance_layer-HasRoom :
        (query : List Float) (entry ef layer : ℕ) (phase : Phase)
        → entry < index.num_vectors
        → IsPhase index.num_vectors entry phase
        → PhaseHasRoom phase
        → ProgressHasRoom (advance_layer ops index query entry ef layer phase)
    unfolding advance_layer ProgressHasRoom start
    advance_layer-HasRoom query entry ef layer (entering s) lt v h =
        length-next_tag index.num_vectors s le near h
    advance_layer-HasRoom query entry ef layer (tagged s) lt v h =
        let e : leb (length s.visited_buf) entry ≡ false = ground arith in
        rw e (omega (arith, length-set s.visited_buf entry s.visit_tag))
    advance_layer-HasRoom query entry ef layer (scanning b []) lt v h = elim (List-cases b.cands) [
      | inl e ↦ rw e h
      | inr (c, cands, e) ↦
          elim (Bool-cases (
            closed (node_similarity ops index query) (λ n. links index.graph n layer) ef c
              b.results)) [ inl shut ↦ rw (e, shut) h | inr opens ↦ rw (e, opens) h ]
    ]
    advance_layer-HasRoom query entry ef layer (scanning b (nb ∷ nbs)) lt v h =
        let inside : nb < index.num_vectors = v.1.0 in
        let e : leb (length b.scratch.visited_buf) nb ≡ false = ground arith in
        elim (Bool-cases (visited b.scratch nb)) [
          | inl seen ↦ rw (e, seen) h
          | inr fresh ↦
              rw (e, fresh)
                (omega (
                  arith,
                  length-consider (node_similarity ops index query) (λ n. links index.graph n layer)
                      ef b nb,
                ))
        ]

    advance-HasRoom :
        (t : Task)
        → IsTask index.dim index.cfg.m index.num_vectors t
        → HasRoom t
        → HasRoom (advance ops index t).1
    unfolding advance begin_search
    advance-HasRoom (appending id vec metadata level s) v h =
        elim (Bool-cases (index.num_vectors == 0)) [ inl e ↦ rw e h | inr e ↦ rw e h ]
    advance-HasRoom (reading_entry vec q level s) v h =
        descend_from-HasRoom (to_link q index.max_layer) vec level _ _ s h
    advance-HasRoom (in_layer c phase) v h = carry_on-HasRoom index.cfg c _ (
        advance_layer-HasRoom (query_of c) (entry_of c) (ef_of index.cfg c) (layer_of c) phase
          (entry_of-lt index.num_vectors c v.0) v.1 h)
    advance-HasRoom (storing query q level lc nbs ep s) v h = h
    advance-HasRoom (linking query q level lc [] ep s) v h =
        connect_from-HasRoom query q level lc ep s h
    advance-HasRoom (linking query q level lc (nb ∷ nbs) ep s) v h = h
    advance-HasRoom (raising q level s) v h = h
    advance-HasRoom (deleting id s) v h = h
    advance-HasRoom (querying query k s) v h = elim (Bool-cases (index.num_vectors == 0)) [
      | inl e ↦ rw e h
      | inr e ↦ rw e h
    ]
    advance-HasRoom (reading_live query k nv s) v h = elim (Option-cases (live_among index nv)) [
      | inl e ↦ rw e h
      | inr (ep, e) ↦ rw e (descend_from-HasRoom (to_answer k) query 0 index.max_layer ep s h)
    ]
    advance-HasRoom (collecting k xs s) v h = h
    advance-HasRoom (finished s) v h = h
    advance-HasRoom (answered xs s) v h = h
    advance-HasRoom out_of_bounds v h = h

module _ (ops : Arith Float) {s : System} (top : ℕ) (h : IsSystem s)
    (near : top ≤ (s.index).num_vectors + 10000)
    (room : (i : ℕ) → HasRoom (s.index).num_vectors top (s.task i)) where
  Reach-HasRoom :
      {t : System}
      → Reach ops s t
      → (t.index).num_vectors ≤ top
      → (i : ℕ) → HasRoom (s.index).num_vectors top (t.task i)
  Reach-HasRoom now le i = room i
  Reach-HasRoom (later j {t} r) le i =
      let (v, more) = Reach-IsSystem ops r h in
      let (v', more') = step-IsSystem ops t j v in
      let before = Reach-HasRoom r (omega arith) in
      elim (ℕ_discrete j i) [
        | yes same ↦ rw (if_pos _ same) (
            advance-HasRoom (s.index).num_vectors top ops t.index more (omega arith) near (t.task j)
              (v.tasks j) (before j))
        | no other ↦ rw (if_neg _ other) (before i)
      ]

  in_bounds : (t : Task) → HasRoom (s.index).num_vectors top t → t ≢ out_of_bounds
  in_bounds t v e = subst (HasRoom (s.index).num_vectors top) e v

  -- If each thread starts with a buffer for `top` nodes, or with one for fewer than the index has,
  -- then no thread leaves its buffer while there are no more than `top` nodes.
  pub Reach-in_bounds :
      {t : System}
      → Reach ops s t
      → (t.index).num_vectors ≤ top
      → (i : ℕ) → t.task i ≢ out_of_bounds
  Reach-in_bounds {t} r le i = in_bounds (t.task i) (Reach-HasRoom r le i)
