-- ===== src/Hnsw/Layer/Reached.antt =====
-- src/hnsw.cpp: the loop ends with every node that the links lead to.
use neuraldatabase.Prelude.{
  ℕ, zero, suc, ◌≤◌, ◌<◌, ◌≡◌, ◌≢◌, sym, subst, ◌∙◌, ℕ_discrete, inl, inr, true, List, ◌∷◌, arith,
  All, All-imp, Bool-cases, List-cases, length,
}
use neuraldatabase.Float.{Float}
use neuraldatabase.Kernels.{Arith}
use neuraldatabase.Ranking.{Scored}
use neuraldatabase.Hnsw.State.{HnswIndex, links}
use neuraldatabase.Hnsw.Layer.{
  Scratch, next_tag, visited, mark, Beam, closed, beam_loop, start, run_beam, node_similarity,
  search_layer,
}
use neuraldatabase.Hnsw.Layer.Results.{IsBeam, visited-mark_self, visited-mark_ne}
use neuraldatabase.Hnsw.Layer.Loop.{
  unseen, unseen-le, unseen-mark, measure, stop_empty, stop_closed, step_open, round, popped-IsBeam,
  round_lem,
}
use neuraldatabase.Hnsw.Layer.Tags.{IsScratch, IsFresh, next_tag-IsFresh}
use neuraldatabase.Hnsw.Layer.Independent.{start-IsBeam, start-measure}
use neuraldatabase.Hnsw.Layer.Hits.{IsClosed}
use neuraldatabase.Hnsw.Layer.Ids.{HasId, Linked, All_of, drain-HasId, unseen-pos}
use neuraldatabase.Hnsw.Layer.Complete.{
  IsSeen, IsFull, IsWhole, IsWhole-Linked, scan-IsFull, scan-IsSeen,
}

module _ (similarity : ℕ → Float) (neighbours : ℕ → List ℕ) (ef nv entry : ℕ) where
  abbrev Seen : Beam → ℕ → Type 0
  Seen = IsSeen similarity neighbours ef nv entry

  abbrev Full : (ℕ → Type 0) → Beam → Type 0
  Full = IsFull similarity neighbours ef nv entry

  abbrev Whole : Beam → Type 0
  Whole = IsWhole similarity neighbours ef nv entry

  closed-full :
      (c : Scored ℕ) (results : List (Scored ℕ))
      → closed similarity neighbours ef c results ≡ true
      → ef ≤ length results
  unfolding closed
  closed-full c results h = ground arith

  all_seen : (s : Scratch) (n : ℕ) → n < nv → unseen s nv ≡ 0 → visited s n ≡ true
  all_seen s n lt h = elim (Bool-cases (visited s n)) [
    | inl e ↦ e
    | inr e ↦ absurd (omega (arith, unseen-pos s n nv lt e))
  ]

  module _ (pos : 0 < ef) (wide : nv ≤ ef)
      (inside : (n : ℕ) → n < nv → All (λ m. m < nv) (neighbours n)) where
    round-IsFull :
        (b : Beam) (c : Scored ℕ) (cands : List (Scored ℕ))
        → b.cands ≡ c ∷ cands
        → IsBeam similarity neighbours ef nv b
        → Full (λ n. ⊥) b
        → Full (λ n. ⊥) (round similarity neighbours ef nv b c cands)
    round-IsFull b c cands e v f =
        let (lt, p) = popped-IsBeam similarity neighbours ef nv pos inside b c cands e v in
        let popped : Full (λ n. c.1 ≡ n) (record b { cands = cands }) = record {
          counted = f.counted;
          kept = f.kept;
          done = λ n below h. elim (f.done n below h) [
            | inl none' ↦ absurd none'
            | inr (inl waits) ↦ elim (subst (HasId n) e waits) [
              | inl same ↦ inl same
              | inr later ↦ inr (inl later)
            ]
            | inr (inr seen) ↦ inr (inr seen)
          ];
          entered = f.entered;
        } in
        let f' =
          scan-IsFull similarity neighbours ef nv entry wide (λ n. c.1 ≡ n)
            (record b { cands = cands }) (neighbours c.1) pos (inside c.1 lt) p popped in
        let b' = round similarity neighbours ef nv b c cands in
        let all = All_of (Seen b') (neighbours c.1) (λ m i.
          scan-IsSeen similarity neighbours ef nv entry (record b { cands = cands })
            (neighbours c.1) m pos (inside c.1 lt) p (inr i)) in
        record {
          counted = f'.counted;
          kept = f'.kept;
          done = λ n below h. elim (f'.done n below h) [
            | inl same ↦ inr (inr (subst (λ k. All (Seen b') (neighbours k)) same all))
            | inr other ↦ inr other
          ];
          entered = f'.entered;
        }

    beam_loop-IsWhole :
        (fuel : ℕ) (b : Beam)
        → IsBeam similarity neighbours ef nv b
        → Full (λ n. ⊥) b
        → measure similarity neighbours ef nv b < fuel
        → Whole (beam_loop similarity neighbours ef fuel b)
    beam_loop-IsWhole zero b v f h = absurd (omega arith)
    beam_loop-IsWhole (suc fuel) b v f h = elim (List-cases b.cands) [
      | inl e ↦ rw (stop_empty similarity neighbours ef nv (suc fuel) b e) (record {
        kept = f.kept;
        complete = λ n below seen. elim (f.done n below seen) [
          | inl none' ↦ absurd none'
          | inr (inl waits) ↦ absurd (subst (HasId n) e waits)
          | inr (inr links') ↦ links'
        ];
        entered = f.entered;
      })
      | inr (c, cands, e) ↦ elim (Bool-cases (closed similarity neighbours ef c b.results)) [
        | inl shut ↦
            let full : ef ≤ length b.results = closed-full c b.results shut in
            let all =
              λ (n : ℕ) (below : n < nv). all_seen b.scratch n below (omega (arith, f.counted)) in
            rw (stop_closed similarity neighbours ef nv fuel b c cands e shut) (record {
              kept = f.kept;
              complete = λ n below seen.
                  All-imp (λ m. m < nv) (Seen b) all (neighbours n) (inside n below);
              entered = f.entered;
            })
        | inr opens ↦
            let (v', less) = round_lem similarity neighbours ef nv pos inside b c cands e v in
            rw (step_open similarity neighbours ef nv fuel b c cands e opens) (
              beam_loop-IsWhole fuel (round similarity neighbours ef nv b c cands) v'
                (round-IsFull b c cands e v f) (omega arith))
      ]
    ]

    start-IsFull :
        (s : Scratch)
        → entry < nv
        → IsFresh nv s
        → Full (λ n. ⊥) (start similarity neighbours ef entry s)
    unfolding start
    start-IsFull s lt f =
        let roomy : entry < length s.visited_buf = omega (arith, f.roomy) in
        let only = λ (n : ℕ) (other : entry ≢ n) (h : visited (mark s entry) n ≡ true).
          let e : visited s n ≡ true = sym (visited-mark_ne s entry n other) ∙ h in
          let e' = f.unmarked n in absurd {A = ⊥} (cc) in
        record {
          counted =
              omega (arith, unseen-le s nv, unseen-mark s entry nv lt roomy (f.unmarked entry));
          kept = λ n below h. elim (ℕ_discrete entry n) [
            | yes same ↦ inl same
            | no other ↦ absurd (only n other h)
          ];
          done = λ n below h. elim (ℕ_discrete entry n) [
            | yes same ↦ inr (inl (inl same))
            | no other ↦ absurd (only n other h)
          ];
          entered = visited-mark_self s entry roomy;
        }

module _ (ops : Arith Float) (index : HnswIndex) (query : List Float) (entry ef layer : ℕ)
    (s : Scratch) (pos : 0 < ef) (closed' : IsClosed ops index query)
    (lt : entry < index.num_vectors) (v : IsScratch s) where
  -- With `ef` no less than the number of nodes, every node that the links of the layer lead to from
  -- the entry point is among the results.
  pub search_layer-HasId :
      (n : ℕ)
      → index.num_vectors ≤ ef
      → Linked (λ m. links index.graph m layer) entry n
      → HasId n (search_layer ops index query entry ef layer s).0
  unfolding search_layer run_beam
  search_layer-HasId n wide l =
      let sim = node_similarity ops index query in
      let near = λ (m : ℕ). links index.graph m layer in
      let nv = index.num_vectors in
      let t = next_tag nv s in
      let f = next_tag-IsFresh nv s v in
      let inside = λ (m : ℕ) (_ : m < nv). closed' m layer in
      let whole =
        beam_loop-IsWhole sim near ef nv entry pos wide inside (suc nv) (start sim near ef entry t)
          (start-IsBeam sim near ef nv pos inside entry t lt f)
          (start-IsFull sim near ef nv entry pos wide inside t lt f)
          (start-measure sim near ef nv pos inside entry t lt f) in
      let b = beam_loop sim near ef (suc nv) (start sim near ef entry t) in
      let (below, seen) = IsWhole-Linked sim near ef nv entry b inside lt whole l in
      drain-HasId n b.results (whole.kept n below seen)
