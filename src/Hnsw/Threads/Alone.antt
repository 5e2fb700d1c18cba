-- ===== src/Hnsw/Threads/Alone.antt =====
-- src/hnsw.cpp: the steps of one thread, if no other comes between them, are the sequential calls.
use neuraldatabase.Prelude.{
  ℕ, zero, suc, ◌+◌, ◌<◌, ◌≡◌, refl, ap, ◌∙◌, inl, inr, false, List, [], ◌∷◌, arith, All,
  Bool-cases, List-cases, length, leb,
}
use neuraldatabase.Float.{Float}
use neuraldatabase.Kernels.{Arith}
use neuraldatabase.Hnsw.State.{HnswIndex, links}
use neuraldatabase.Hnsw.Layer.{
  Scratch, Beam, visited, consider, scan, closed, beam_loop, start, run_beam, drain, next_tag,
  node_similarity, search_layer,
}
use neuraldatabase.Hnsw.Layer.Results.{IsBeam, consider-IsBeam}
use neuraldatabase.Hnsw.Layer.Loop.{
  measure, stop_empty, stop_closed, step_open, round, popped-IsBeam, round_lem,
}
use neuraldatabase.Hnsw.Layer.Tags.{IsScratch, next_tag-IsFresh}
use neuraldatabase.Hnsw.Layer.Independent.{start-IsBeam, start-measure}
use neuraldatabase.Hnsw.Layer.Hits.{IsClosed}
use neuraldatabase.Hnsw.Threads.{
  entering, scanning, Caller, Task, in_layer, entry_of, query_of, ef_of, layer_of, resume, carry_on,
  advance_layer, advance,
}

-- `n` steps of one thread, with no other between them
unfoldable pub solo : Arith Float → ℕ → HnswIndex × Task → HnswIndex × Task
solo ops zero x = x
solo ops (suc n) x = solo ops n (advance ops x.0 x.1)

module _ (ops : Arith Float) where
  abbrev pub Leads : HnswIndex × Task → HnswIndex × Task → Type 0
  Leads x y = (n : ℕ) × (solo ops n x ≡ y)

  solo-add : (n m : ℕ) (x : HnswIndex × Task) → solo ops (n + m) x ≡ solo ops m (solo ops n x)
  unfolding solo
  solo-add zero m x = let e : 0 + m ≡ m = omega arith in rw e refl
  solo-add (suc n) m x =
      let e : suc n + m ≡ suc (n + m) = omega arith in rw e (solo-add n m (advance ops x.0 x.1))

  pub Leads-now : (x : HnswIndex × Task) → Leads x x
  unfolding solo
  Leads-now x = (0, refl)

  pub Leads-trans : (x y z : HnswIndex × Task) → Leads x y → Leads y z → Leads x z
  Leads-trans x y z (n, e) (m, e') =
      (n + m, solo-add n m x ∙ ap (λ (w : HnswIndex × Task). solo ops m w) e ∙ e')

  pub Leads-step : (x y : HnswIndex × Task) → Leads (advance ops x.0 x.1) y → Leads x y
  unfolding solo
  Leads-step x y (n, e) = (suc n, e)

  module _ (index : HnswIndex) (c : Caller) (shut' : IsClosed ops index (query_of c))
      (pos : 0 < ef_of index.cfg c) (lt : entry_of c < index.num_vectors) where
    abbrev sim : ℕ → Float
    sim = node_similarity ops index (query_of c)

    abbrev near : ℕ → List ℕ
    near n = links index.graph n (layer_of c)

    abbrev ef : ℕ
    ef = ef_of index.cfg c

    scan-Leads :
        (b : Beam) (nbs : List ℕ)
        → All (λ n. n < index.num_vectors) nbs
        → IsBeam sim near ef index.num_vectors b
        → Leads
            (index, in_layer c (scanning b nbs))
            (index, in_layer c (scanning (scan sim near ef b nbs) []))
    unfolding scan advance advance_layer carry_on
    scan-Leads b [] h v = Leads-now _
    scan-Leads b (nb ∷ nbs) h v =
        let inside : leb (length b.scratch.visited_buf) nb ≡ false = ground (arith, v.roomy, h.0) in
        elim (Bool-cases (visited b.scratch nb)) [
          | inl e ↦ Leads-step _ _ (rw (inside, e) (scan-Leads b nbs h.1 v))
          | inr e ↦ Leads-step _ _ (
              rw (inside, e)
                (scan-Leads (consider sim near ef b nb) nbs h.1
                  (consider-IsBeam sim near ef index.num_vectors b nb pos h.0 e v)))
        ]

    beam_loop-Leads :
        (fuel : ℕ) (b : Beam)
        → IsBeam sim near ef index.num_vectors b
        → measure sim near ef index.num_vectors b < fuel
        → Leads
            (index, in_layer c (scanning b []))
            (
              index,
              resume index.cfg c
                  (drain (beam_loop sim near ef fuel b).results)
                  (beam_loop sim near ef fuel b).scratch,
            )
    unfolding advance advance_layer carry_on
    beam_loop-Leads zero b v h = absurd (omega arith)
    beam_loop-Leads (suc fuel) b v h = elim (List-cases b.cands) [
      | inl e ↦
          rw (stop_empty sim near ef index.num_vectors (suc fuel) b e)
            (Leads-step _ _ (rw e (Leads-now _)))
      | inr (x, cands, e) ↦ elim (Bool-cases (closed sim near ef x b.results)) [
        | inl shut ↦
            rw (stop_closed sim near ef index.num_vectors fuel b x cands e shut)
              (Leads-step _ _ (rw (e, shut) (Leads-now _)))
        | inr opens ↦
            let inside = λ (n : ℕ) (_ : n < index.num_vectors). shut' n (layer_of c) in
            let (below, p) = popped-IsBeam sim near ef index.num_vectors pos inside b x cands e v in
            let (v', less) = round_lem sim near ef index.num_vectors pos inside b x cands e v in
            rw (step_open sim near ef index.num_vectors fuel b x cands e opens) (
              Leads-step _ _ (
                rw (e, opens)
                  (Leads-trans _ _ _
                    (scan-Leads (record b { cands = cands }) (near x.1) (inside x.1 below) p)
                    (beam_loop-Leads fuel (round sim near ef index.num_vectors b x cands) v'
                      (omega arith)))))
      ]
    ]

    -- A layer search hands its caller what `search_layer` returns.
    pub layer-Leads :
        (s : Scratch)
        → IsScratch s
        → Leads
            (index, in_layer c (entering s))
            (
              index,
              resume index.cfg c
                  (search_layer ops index (query_of c) (entry_of c) ef (layer_of c) s).0
                  (search_layer ops index (query_of c) (entry_of c) ef (layer_of c) s).1,
            )
    unfolding advance advance_layer carry_on search_layer run_beam
    layer-Leads s v =
        let f = next_tag-IsFresh index.num_vectors s v in
        let t = next_tag index.num_vectors s in
        let inside = λ (n : ℕ) (_ : n < index.num_vectors). shut' n (layer_of c) in
        let e : leb (length t.visited_buf) (entry_of c) ≡ false = ground (arith, f.roomy) in
        Leads-step _ _ (
          Leads-step _ _ (
            rw e (
              beam_loop-Leads (suc index.num_vectors) (start sim near ef (entry_of c) t)
                (start-IsBeam sim near ef index.num_vectors pos inside (entry_of c) t lt f)
                (start-measure sim near ef index.num_vectors pos inside (entry_of c) t lt f))))
