-- ===== src/Hnsw/Layer/Loop.antt =====
-- src/hnsw.cpp: the `while` loop of `search_layer_` ends, and what it leaves in the queues.
use neuraldatabase.Prelude.{
  ℕ, zero, suc, ◌+◌, ◌≤◌, ◌<◌, ◌≡◌, ◌≢◌, refl, ap, sym, subst, ℕ_discrete, ◌∙◌, inl, inr, true,
  false, List, [], ◌∷◌, arith, All, Bool-cases, List-cases, length, if◌then◌else◌, ltb, ◌||◌,
}
use neuraldatabase.Float.{Float, float_lt, float_neg}
use neuraldatabase.Ranking.{Scored}
use neuraldatabase.Hnsw.Queue.{pair_lt}
use neuraldatabase.Hnsw.Layer.{
  Scratch, visited, mark, Beam, worst_of, consider, scan, closed, beam_loop,
}
use neuraldatabase.Hnsw.Layer.Results.{
  IsFound, IsBeam, length-push, visited-mark_self, visited-mark_ne, consider-IsBeam, scan-IsBeam,
}

-- how many of the first `n` nodes are not visited
unfoldable pub unseen : Scratch → ℕ → ℕ
unseen s zero = 0
unseen s (suc n) = (if visited s n then 0 else 1) + unseen s n

pub unseen-le : (s : Scratch) (n : ℕ) → unseen s n ≤ n
unfolding unseen
unseen-le s zero = omega arith
unseen-le s (suc n) = ground (arith, unseen-le s n)

unseen-mark_le : (s : Scratch) (m n : ℕ) → n ≤ m → unseen (mark s m) n ≡ unseen s n
unfolding unseen
unseen-mark_le s m zero h = refl
unseen-mark_le s m (suc n) h =
    let other : m ≢ n = omega arith in
    rw (visited-mark_ne s m n other, unseen-mark_le s m n (omega arith)) refl

pub unseen-mark :
    (s : Scratch) (m n : ℕ)
    → m < n
    → m < length s.visited_buf
    → visited s m ≡ false
    → unseen (mark s m) n + 1 ≡ unseen s n
unfolding unseen
unseen-mark s m zero h r f = elim h [ ]
unseen-mark s m (suc n) h r f = elim (ℕ_discrete m n) [
  | yes e ↦
      let now : visited (mark s m) n ≡ true =
        subst (λ k. visited (mark s m) k ≡ true) e (visited-mark_self s m r) in
      let then' : visited s n ≡ false = subst (λ k. visited s k ≡ false) e f in
      rw (now, then', unseen-mark_le s m n (omega arith)) (omega arith)
  | no e ↦ rw (visited-mark_ne s m n e) (omega (arith, unseen-mark s m n (omega arith) r f))
]

module _ (similarity : ℕ → Float) (neighbours : ℕ → List ℕ) (ef nv : ℕ) where
  -- the candidates to come, and the nodes that can still become one
  unfoldable pub measure : Beam → ℕ
  measure b = length b.cands + unseen b.scratch nv

  pub stop_empty :
      (fuel : ℕ) (b : Beam) → b.cands ≡ [] → beam_loop similarity neighbours ef fuel b ≡ b
  unfolding beam_loop
  stop_empty zero b h = refl
  stop_empty (suc fuel) b h = ground arith

  pub stop_closed :
      (fuel : ℕ) (b : Beam) (c : Scored ℕ) (cands : List (Scored ℕ))
      → b.cands ≡ c ∷ cands
      → closed similarity neighbours ef c b.results ≡ true
      → beam_loop similarity neighbours ef (suc fuel) b ≡ record b { cands = cands }
  unfolding beam_loop
  stop_closed fuel b c cands h e = ground arith

  pub step_open :
      (fuel : ℕ) (b : Beam) (c : Scored ℕ) (cands : List (Scored ℕ))
      → b.cands ≡ c ∷ cands
      → closed similarity neighbours ef c b.results ≡ false
      → beam_loop similarity neighbours ef (suc fuel) b
        ≡ beam_loop similarity neighbours ef fuel
            (scan similarity neighbours ef (record b { cands = cands }) (neighbours c.1))
  unfolding beam_loop
  step_open fuel b c cands h e = ground arith

  pub consider-measure :
      (b : Beam) (nb : ℕ)
      → nb < nv
      → nv ≤ length b.scratch.visited_buf
      → visited b.scratch nb ≡ false
      → measure (consider similarity neighbours ef b nb) ≤ measure b
  unfolding measure consider
  consider-measure b nb lt roomy fresh =
      let less = unseen-mark b.scratch nb nv lt (omega arith) fresh in
      let more = length-push pair_lt (float_neg (similarity nb), nb) b.cands in
      elim (Bool-cases
        (float_lt (worst_of b.results) (similarity nb) || ltb (length b.results) ef)) [
          | inl e ↦ rw e (omega arith)
          | inr e ↦ rw e (omega arith)
        ]

  scan-measure :
      (b : Beam) (nbs : List ℕ)
      → 0 < ef
      → All (λ n. n < nv) nbs
      → IsBeam similarity neighbours ef nv b
      → measure (scan similarity neighbours ef b nbs) ≤ measure b
  unfolding scan
  scan-measure b [] pos h v = omega arith
  scan-measure b (nb ∷ nbs) pos h v = elim (Bool-cases (visited b.scratch nb)) [
    | inl e ↦ rw e (scan-measure b nbs pos h.1 v)
    | inr e ↦
        let b' = consider similarity neighbours ef b nb in
        rw e (
          omega (
            arith,
            scan-measure b' nbs pos h.1
                (consider-IsBeam similarity neighbours ef nv b nb pos h.0 e v),
            consider-measure b nb h.0 v.roomy e,
          ))
  ]

  -- One round of the loop that goes on.
  abbrev pub round : Beam → Scored ℕ → List (Scored ℕ) → Beam
  round b c cands = scan similarity neighbours ef (record b { cands = cands }) (neighbours c.1)

  module _ (pos : 0 < ef) (inside : (n : ℕ) → n < nv → All (λ m. m < nv) (neighbours n)) where
    pub popped-IsBeam :
        (b : Beam) (c : Scored ℕ) (cands : List (Scored ℕ))
        → b.cands ≡ c ∷ cands
        → IsBeam similarity neighbours ef nv b
        → (c.1 < nv) × IsBeam similarity neighbours ef nv (record b { cands = cands })
    popped-IsBeam b c cands h v =
        let pending = subst (All (IsFound similarity neighbours ef nv b.scratch)) h v.pending in
        (
          (pending.0).in_range,
          record {
            roomy = v.roomy;
            pending = pending.1;
            found = v.found;
            distinct = v.distinct;
            bounded = v.bounded;
            nonempty = v.nonempty;
          },
        )

    pub round_lem :
        (b : Beam) (c : Scored ℕ) (cands : List (Scored ℕ))
        → b.cands ≡ c ∷ cands
        → IsBeam similarity neighbours ef nv b
        → IsBeam similarity neighbours ef nv (round b c cands)
          × (measure (round b c cands) < measure b)
    unfolding measure
    round_lem b c cands h v =
        let (lt, p) = popped-IsBeam b c cands h v in
        let b' : Beam = record b { cands = cands } in
        (
          scan-IsBeam similarity neighbours ef nv b' (neighbours c.1) pos (inside c.1 lt) p,
          omega (
            arith,
            scan-measure b' (neighbours c.1) pos (inside c.1 lt) p,
            ap (length {A = Scored ℕ}) h,
          ),
        )

    -- The queues stay as they should be, however long the loop runs.
    pub beam_loop-IsBeam :
        (fuel : ℕ) (b : Beam)
        → IsBeam similarity neighbours ef nv b
        → IsBeam similarity neighbours ef nv (beam_loop similarity neighbours ef fuel b)
    beam_loop-IsBeam zero b v = unfold beam_loop in v
    beam_loop-IsBeam (suc fuel) b v = elim (List-cases b.cands) [
      | inl e ↦ rw (stop_empty (suc fuel) b e) v
      | inr (c, cands, e) ↦ elim (Bool-cases (closed similarity neighbours ef c b.results)) [
        | inl shut ↦ rw (stop_closed fuel b c cands e shut) (popped-IsBeam b c cands e v).1
        | inr opens ↦
            rw (step_open fuel b c cands e opens)
              (beam_loop-IsBeam fuel (round b c cands) (round_lem b c cands e v).0)
      ]
    ]

    -- Once the fuel passes the measure the loop ends by itself: more fuel changes nothing.
    pub beam_loop_fuel :
        (fuel more : ℕ) (b : Beam)
        → IsBeam similarity neighbours ef nv b
        → measure b < fuel
        → measure b < more
        → beam_loop similarity neighbours ef fuel b ≡ beam_loop similarity neighbours ef more b
    beam_loop_fuel zero more b v h k = elim h [ ]
    beam_loop_fuel (suc fuel) zero b v h k = elim k [ ]
    beam_loop_fuel (suc fuel) (suc more) b v h k = elim (List-cases b.cands) [
      | inl e ↦ stop_empty (suc fuel) b e ∙ sym (stop_empty (suc more) b e)
      | inr (c, cands, e) ↦ elim (Bool-cases (closed similarity neighbours ef c b.results)) [
        | inl shut ↦ stop_closed fuel b c cands e shut ∙ sym (stop_closed more b c cands e shut)
        | inr opens ↦
            let (v', less) = round_lem b c cands e v in
            step_open fuel b c cands e opens
            ∙ beam_loop_fuel fuel more (round b c cands) v' (omega arith) (omega arith)
            ∙ sym (step_open more b c cands e opens)
      ]
    ]
