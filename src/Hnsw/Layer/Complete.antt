-- ===== src/Hnsw/Layer/Complete.antt =====
-- src/hnsw.cpp: a beam as wide as the graph finds every node that its links lead to.
use neuraldatabase.Prelude.{
  ℕ, ◌+◌, ◌≤◌, ◌<◌, ◌≡◌, ◌≢◌, ◌⊎◌, sym, subst, ◌∙◌, ℕ_discrete, inl, inr, true, false, List, [],
  ◌∷◌, arith, All, All-imp, Bool-cases, length, ltb, ◌||◌,
}
use neuraldatabase.Float.{Float, float_lt, float_neg}
use neuraldatabase.Ranking.{Scored}
use neuraldatabase.Hnsw.Queue.{pair_lt, larger, push}
use neuraldatabase.Hnsw.Layer.{visited, mark, Beam, worst_of, consider, scan}
use neuraldatabase.Hnsw.Layer.Results.{
  IsBeam, length-push, visited-mark_self, visited-mark_ne, consider-IsBeam,
}
use neuraldatabase.Hnsw.Layer.Loop.{unseen, unseen-mark}
use neuraldatabase.Hnsw.Layer.Ids.{
  HasId, IsIn, Linked, here, along, All-IsIn, push-HasId_self, push-HasId, trim_all,
  visited-mark_mono, unseen-pos,
}

module _ (similarity : ℕ → Float) (neighbours : ℕ → List ℕ) (ef nv entry : ℕ) where
  abbrev pub IsSeen : Beam → ℕ → Type 0
  IsSeen b n = visited b.scratch n ≡ true

  -- Each visited node is a result, and it is a candidate yet or all its links are visited, unless
  -- it is spared.
  pub record IsFull (Spared : ℕ → Type 0) (b : Beam) : Type 0 where
    pub counted : length b.results + unseen b.scratch nv ≤ nv
    pub kept : (n : ℕ) → n < nv → IsSeen b n → HasId n b.results
    pub done :
        (n : ℕ) → n < nv → IsSeen b n → Spared n ⊎ (HasId n b.cands ⊎ All (IsSeen b) (neighbours n))
    pub entered : IsSeen b entry

  -- What the loop leaves: the results are closed under links.
  pub record IsWhole (b : Beam) : Type 0 where
    pub kept : (n : ℕ) → n < nv → IsSeen b n → HasId n b.results
    pub complete : (n : ℕ) → n < nv → IsSeen b n → All (IsSeen b) (neighbours n)
    pub entered : IsSeen b entry

  pub IsWhole-Linked :
      (b : Beam)
      → ((n : ℕ) → n < nv → All (λ m. m < nv) (neighbours n))
      → entry < nv
      → IsWhole b
      → {n : ℕ} → Linked neighbours entry n
      → (n < nv) × IsSeen b n
  IsWhole-Linked b inside lt w here = (lt, w.entered)
  IsWhole-Linked b inside lt w (along {n} m l i) =
      let (below, seen) = IsWhole-Linked b inside lt w l in
      (
        All-IsIn (λ k. k < nv) m (neighbours n) (inside n below) i,
        All-IsIn (IsSeen b) m (neighbours n) (w.complete n below seen) i,
      )

  module _ (wide : nv ≤ ef) (Spared : ℕ → Type 0) where
    consider-IsFull :
        (b : Beam) (nb : ℕ)
        → nb < nv
        → nv ≤ length b.scratch.visited_buf
        → visited b.scratch nb ≡ false
        → IsFull Spared b
        → IsFull Spared (consider similarity neighbours ef b nb)
    unfolding consider
    consider-IsFull b nb lt roomy fresh f =
        let x : Scored ℕ = (float_neg (similarity nb), nb) in
        let some_left = unseen-pos b.scratch nb nv lt fresh in
        let less = unseen-mark b.scratch nb nv lt (omega arith) fresh in
        let few : length b.results < ef = omega (arith, f.counted) in
        let e : (float_lt (worst_of b.results) (similarity nb) || ltb (length b.results) ef)
            ≡ true =
          ground arith in
        let size = length-push larger x b.results in
        let whole = trim_all ef (push larger x b.results) (omega arith) in
        let old = λ (n : ℕ) (other : nb ≢ n) (h : visited (mark b.scratch nb) n ≡ true).
          sym (visited-mark_ne b.scratch nb n other) ∙ h in
        let mono = λ (m : ℕ) (h : visited b.scratch m ≡ true).
          visited-mark_mono b.scratch nb m (omega arith) h in
        rw (e, whole)
          (record {
            counted = omega (arith, f.counted);
            kept = λ n below h. elim (ℕ_discrete nb n) [
              | yes same ↦
                  subst (λ k. HasId k (push larger x b.results)) same
                    (push-HasId_self larger x b.results)
              | no other ↦ push-HasId larger x n b.results (f.kept n below (old n other h))
            ];
            done = λ n below h. elim (ℕ_discrete nb n) [
              | yes same ↦ inr (
                  inl (
                    subst (λ k. HasId k (push pair_lt x b.cands)) same
                      (push-HasId_self pair_lt x b.cands)))
              | no other ↦ elim (f.done n below (old n other h)) [
                | inl spared ↦ inl spared
                | inr (inl waits) ↦ inr (inl (push-HasId pair_lt x n b.cands waits))
                | inr (inr seen) ↦ inr (
                    inr (
                      All-imp (IsSeen b) (λ m. visited (mark b.scratch nb) m ≡ true) mono
                        (neighbours n) seen))
              ]
            ];
            entered = mono entry f.entered;
          })

    pub scan-IsFull :
        (b : Beam) (nbs : List ℕ)
        → 0 < ef
        → All (λ n. n < nv) nbs
        → IsBeam similarity neighbours ef nv b
        → IsFull Spared b
        → IsFull Spared (scan similarity neighbours ef b nbs)
    unfolding scan
    scan-IsFull b [] pos h v f = f
    scan-IsFull b (nb ∷ nbs) pos h v f = elim (Bool-cases (visited b.scratch nb)) [
      | inl e ↦ rw e (scan-IsFull b nbs pos h.1 v f)
      | inr e ↦ rw e (
          scan-IsFull (consider similarity neighbours ef b nb) nbs pos h.1
            (consider-IsBeam similarity neighbours ef nv b nb pos h.0 e v)
            (consider-IsFull b nb h.0 v.roomy e f))
    ]

  -- What is visited stays so, and a scan visits all its nodes.
  consider-IsSeen :
      (b : Beam) (nb m : ℕ)
      → nb < length b.scratch.visited_buf
      → (IsSeen b m ⊎ (nb ≡ m))
      → IsSeen (consider similarity neighbours ef b nb) m
  unfolding consider
  consider-IsSeen b nb m lt h =
      let now : visited (mark b.scratch nb) m ≡ true = elim h [
        | inl seen ↦ visited-mark_mono b.scratch nb m lt seen
        | inr same ↦
            subst (λ k. visited (mark b.scratch nb) k ≡ true) same
              (visited-mark_self b.scratch nb lt)
      ] in
      elim (Bool-cases
        (float_lt (worst_of b.results) (similarity nb) || ltb (length b.results) ef)) [
          | inl e ↦ rw e now
          | inr e ↦ rw e now
        ]

  pub scan-IsSeen :
      (b : Beam) (nbs : List ℕ) (m : ℕ)
      → 0 < ef
      → All (λ n. n < nv) nbs
      → IsBeam similarity neighbours ef nv b
      → (IsSeen b m ⊎ IsIn m nbs)
      → IsSeen (scan similarity neighbours ef b nbs) m
  unfolding scan
  scan-IsSeen b [] m pos h v (inl seen) = seen
  scan-IsSeen b [] m pos h v (inr i) = absurd i
  scan-IsSeen b (nb ∷ nbs) m pos h v i = elim (Bool-cases (visited b.scratch nb)) [
    | inl e ↦
        rw (e, scan)
          (scan-IsSeen b nbs m pos h.1 v (elim i [
            | inl seen ↦ inl seen
            | inr (inl same) ↦ inl (subst (λ k. visited b.scratch k ≡ true) same e)
            | inr (inr later) ↦ inr later
          ]))
    | inr e ↦
        let lt : nb < length b.scratch.visited_buf = omega (arith, v.roomy, h.0) in
        rw (e, scan)
          (scan-IsSeen (consider similarity neighbours ef b nb) nbs m pos h.1
            (consider-IsBeam similarity neighbours ef nv b nb pos h.0 e v)
            (elim i [
              | inl seen ↦ inl (consider-IsSeen b nb m lt (inl seen))
              | inr (inl same) ↦ inl (consider-IsSeen b nb m lt (inr same))
              | inr (inr later) ↦ inr later
            ]))
  ]
