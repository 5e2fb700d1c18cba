-- ===== src/Hnsw/Layer/Independent.antt =====
-- src/hnsw.cpp: a layer search does not depend on the searches that the thread made before it.
use neuraldatabase.Prelude.{
  ℕ, zero, suc, ◌<◌, ◌≡◌, refl, sym, ◌∙◌, inl, inr, List, [], ◌∷◌, arith, All, Bool-cases,
  List-cases, length, length-set, ltb, ◌||◌,
}
use neuraldatabase.Float.{Float, float_lt, float_neg}
use neuraldatabase.Hnsw.Layer.{
  Scratch, next_tag, visited, mark, Beam, worst_of, consider, scan, closed, beam_loop, start,
  run_beam,
}
use neuraldatabase.Hnsw.Layer.Results.{IsFound, IsBeam, visited-mark_self}
use neuraldatabase.Hnsw.Layer.Loop.{
  unseen-le, unseen-mark, measure, stop_empty, stop_closed, step_open, round, popped-IsBeam,
  round_lem, beam_loop-IsBeam, beam_loop_fuel,
}
use neuraldatabase.Hnsw.Layer.Tags.{
  IsScratch, IsFresh, next_tag-IsFresh, mark-IsScratch, Alike, mark-marks, scan-Alike,
}

module _ (similarity : ℕ → Float) (neighbours : ℕ → List ℕ) (ef : ℕ) where
  consider-IsScratch :
      (b : Beam) (nb : ℕ)
      → IsScratch b.scratch
      → IsScratch (consider similarity neighbours ef b nb).scratch
  unfolding consider
  consider-IsScratch b nb v =
      elim (Bool-cases
        (float_lt (worst_of b.results) (similarity nb) || ltb (length b.results) ef)) [
          | inl e ↦ rw e (mark-IsScratch b.scratch nb v)
          | inr e ↦ rw e (mark-IsScratch b.scratch nb v)
        ]

  scan-IsScratch :
      (b : Beam) (nbs : List ℕ)
      → IsScratch b.scratch
      → IsScratch (scan similarity neighbours ef b nbs).scratch
  unfolding scan
  scan-IsScratch b [] v = v
  scan-IsScratch b (nb ∷ nbs) v = elim (Bool-cases (visited b.scratch nb)) [
    | inl e ↦ rw (e, scan) (scan-IsScratch b nbs v)
    | inr e ↦
        rw (e, scan)
          (scan-IsScratch (consider similarity neighbours ef b nb) nbs (consider-IsScratch b nb v))
  ]

  beam_loop-IsScratch :
      (fuel : ℕ) (b : Beam)
      → IsScratch b.scratch
      → IsScratch (beam_loop similarity neighbours ef fuel b).scratch
  beam_loop-IsScratch zero b v = unfold beam_loop in v
  beam_loop-IsScratch (suc fuel) b v = elim (List-cases b.cands) [
    | inl e ↦ rw (stop_empty similarity neighbours ef 0 (suc fuel) b e) v
    | inr (c, cands, e) ↦ elim (Bool-cases (closed similarity neighbours ef c b.results)) [
      | inl shut ↦ rw (stop_closed similarity neighbours ef 0 fuel b c cands e shut) v
      | inr opens ↦ rw (step_open similarity neighbours ef 0 fuel b c cands e opens) (
          beam_loop-IsScratch fuel (round similarity neighbours ef 0 b c cands)
            (scan-IsScratch (record b { cands = cands }) (neighbours c.1) v))
    ]
  ]

  -- A search leaves the thread's buffer fit for the next one.
  pub run_beam-IsScratch :
      (nv entry : ℕ) (s : Scratch)
      → IsScratch s
      → IsScratch (run_beam similarity neighbours ef nv entry s).scratch
  unfolding run_beam start
  run_beam-IsScratch nv entry s v =
      beam_loop-IsScratch (suc nv) (start similarity neighbours ef entry (next_tag nv s))
        (mark-IsScratch (next_tag nv s) entry (next_tag-IsFresh nv s v).valid)

module _ (similarity : ℕ → Float) (neighbours : ℕ → List ℕ) (ef nv : ℕ) (pos : 0 < ef)
    (inside : (n : ℕ) → n < nv → All (λ m. m < nv) (neighbours n)) where
  -- The queues hold the entry point alone, and it is marked.
  pub start-IsBeam :
      (entry : ℕ) (s : Scratch)
      → entry < nv
      → IsFresh nv s
      → IsBeam similarity neighbours ef nv (start similarity neighbours ef entry s)
  unfolding start
  start-IsBeam entry s lt f =
      let here : IsFound similarity neighbours ef nv (mark s entry)
          (float_neg (similarity entry), entry) =
        record {
          score = refl;
          in_range = lt;
          seen = visited-mark_self s entry (omega (arith, f.roomy));
        } in
      record {
        roomy = omega (arith, f.roomy, length-set s.visited_buf entry s.visit_tag);
        pending = (here, tt);
        found = (here, tt);
        distinct = (tt, tt);
        bounded = omega arith;
        nonempty = omega arith;
      }

  pub start-measure :
      (entry : ℕ) (s : Scratch)
      → entry < nv
      → IsFresh nv s
      → measure similarity neighbours ef nv (start similarity neighbours ef entry s) < suc nv
  unfolding start measure
  start-measure entry s lt f =
      omega (
        arith,
        unseen-le s nv,
        unseen-mark s entry nv lt (omega (arith, f.roomy)) (f.unmarked entry),
      )

  pub run_beam-IsBeam :
      (entry : ℕ) (s : Scratch)
      → entry < nv
      → IsScratch s
      → IsBeam similarity neighbours ef nv (run_beam similarity neighbours ef nv entry s)
  unfolding run_beam
  run_beam-IsBeam entry s lt v =
      beam_loop-IsBeam similarity neighbours ef nv pos inside (suc nv)
        (start similarity neighbours ef entry (next_tag nv s))
        (start-IsBeam entry (next_tag nv s) lt (next_tag-IsFresh nv s v))

  -- The fuel of `run_beam` is enough: with any more the loop does the same.
  pub run_beam_fuel :
      (entry more : ℕ) (s : Scratch)
      → entry < nv
      → IsScratch s
      → nv < more
      → run_beam similarity neighbours ef nv entry s
        ≡ beam_loop similarity neighbours ef more
            (start similarity neighbours ef entry (next_tag nv s))
  unfolding run_beam
  run_beam_fuel entry more s lt v h =
      let f = next_tag-IsFresh nv s v in
      let m = start-measure entry (next_tag nv s) lt f in
      beam_loop_fuel similarity neighbours ef nv pos inside (suc nv) more _
        (start-IsBeam entry (next_tag nv s) lt f) m (omega (arith, m))

  beam_loop-Alike :
      (fuel : ℕ) (b b' : Beam)
      → IsBeam similarity neighbours ef nv b
      → Alike nv b b'
      → (beam_loop similarity neighbours ef fuel b).results
        ≡ (beam_loop similarity neighbours ef fuel b').results
  beam_loop-Alike zero b b' v a = unfold beam_loop in a.results
  beam_loop-Alike (suc fuel) b b' v a = elim (List-cases b.cands) [
    | inl e ↦
        let e' : b'.cands ≡ [] = sym a.cands ∙ e in
        rw
          (
            stop_empty similarity neighbours ef nv (suc fuel) b e,
            stop_empty similarity neighbours ef nv (suc fuel) b' e',
          )
          a.results
    | inr (c, cands, e) ↦
        let e' : b'.cands ≡ c ∷ cands = sym a.cands ∙ e in
        elim (Bool-cases (closed similarity neighbours ef c b.results)) [
          | inl shut ↦
              rw
                (
                  stop_closed similarity neighbours ef nv fuel b c cands e shut,
                  stop_closed similarity neighbours ef nv fuel b' c cands e'
                      (rw (← a.results) shut),
                )
                a.results
          | inr opens ↦
              let (lt, p) = popped-IsBeam similarity neighbours ef nv pos inside b c cands e v in
              let popped : Alike nv (record b { cands = cands }) (record b' { cands = cands }) =
                record {
                  cands = refl;
                  results = a.results;
                  marks = a.marks;
                  roomy = a.roomy;
                  roomy' = a.roomy';
                } in
              rw
                (
                  step_open similarity neighbours ef nv fuel b c cands e opens,
                  step_open similarity neighbours ef nv fuel b' c cands e' (rw (← a.results) opens),
                )
                (beam_loop-Alike fuel (round similarity neighbours ef nv b c cands)
                  (round similarity neighbours ef nv b' c cands)
                  (round_lem similarity neighbours ef nv pos inside b c cands e v).0
                  (scan-Alike similarity neighbours ef nv (record b { cands = cands })
                    (record b' { cands = cands }) (neighbours c.1) (inside c.1 lt) popped))
        ]
  ]

  -- Whatever the thread searched before, the results are the same.
  pub run_beam-scratch :
      (entry : ℕ) (s s' : Scratch)
      → entry < nv
      → IsScratch s
      → IsScratch s'
      → (run_beam similarity neighbours ef nv entry s).results
        ≡ (run_beam similarity neighbours ef nv entry s').results
  unfolding run_beam start
  run_beam-scratch entry s s' lt v v' =
      let f = next_tag-IsFresh nv s v in
      let f' = next_tag-IsFresh nv s' v' in
      let t = next_tag nv s in
      let t' = next_tag nv s' in
      beam_loop-Alike (suc nv) (start similarity neighbours ef entry t)
        (start similarity neighbours ef entry t') (start-IsBeam entry t lt f)
        (record {
          cands = refl;
          results = refl;
          marks = λ n.
              mark-marks t t' entry n (omega (arith, f.roomy)) (omega (arith, f'.roomy))
                (f.unmarked n ∙ sym (f'.unmarked n));
          roomy = omega (arith, f.roomy, length-set t.visited_buf entry t.visit_tag);
          roomy' = omega (arith, f'.roomy, length-set t'.visited_buf entry t'.visit_tag);
        })
