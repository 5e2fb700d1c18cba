-- ===== src/Hnsw/Layer/Results.antt =====
-- src/hnsw.cpp: what the queues of `search_layer_` hold, round by round.
use neuraldatabase.Prelude.{
  ℕ, suc, ◌+◌, ◌≤◌, ◌<◌, ◌≡◌, ◌≢◌, refl, sym, subst, ◌∙◌, ℕ_discrete, inl, inr, Bool, true, false,
  List, [], ◌∷◌, arith, All, All-imp, Bool-cases, length, length-set, get_or-set_self,
  get_or-set_ne, ltb, ◌||◌,
}
use neuraldatabase.Float.{Float, float_lt, float_neg}
use neuraldatabase.Ranking.{Scored}
use neuraldatabase.Hnsw.Queue.{pair_lt, larger, push}
use neuraldatabase.Hnsw.Layer.{Scratch, visited, mark, Beam, worst_of, trim, consider, scan}

-- no two entries with one id
abbrev pub IsDistinct : List (Scored ℕ) → Type 0
IsDistinct [] = Unit
IsDistinct (x ∷ xs) = All (λ y. y.1 ≢ x.1) xs × IsDistinct xs

module _ (first : Scored ℕ → Scored ℕ → Bool) (x : Scored ℕ) where
  pub All-push :
      (P : Scored ℕ → Type 0) (xs : List (Scored ℕ)) → P x → All P xs → All P (push first x xs)
  unfolding push
  All-push P [] h k = (h, tt)
  All-push P (y ∷ ys) h k = elim (Bool-cases (first x y)) [
    | inl e ↦ rw e (h, k)
    | inr e ↦ rw e (k.0, All-push P ys h k.1)
  ]

  pub length-push : (xs : List (Scored ℕ)) → length (push first x xs) ≡ suc (length xs)
  unfolding push
  length-push [] = refl
  length-push (y ∷ ys) = ground (arith, length-push ys)

  pub push-IsDistinct :
      (xs : List (Scored ℕ))
      → All (λ y. y.1 ≢ x.1) xs
      → IsDistinct xs
      → IsDistinct (push first x xs)
  unfolding push
  push-IsDistinct [] h d = (tt, tt)
  push-IsDistinct (y ∷ ys) h d = elim (Bool-cases (first x y)) [
    | inl e ↦ rw e (h, d)
    | inr e ↦ rw e (All-push (λ z. z.1 ≢ y.1) ys (λ p. h.0 (sym p)) d.0, push-IsDistinct ys h.1 d.1)
  ]

pub All-trim :
    (P : Scored ℕ → Type 0) (ef : ℕ) (xs : List (Scored ℕ)) → All P xs → All P (trim ef xs)
unfolding trim
All-trim P ef [] h = tt
All-trim P ef (x ∷ xs) h = elim (Bool-cases (ltb ef (length (x ∷ xs)))) [
  | inl e ↦ rw e h.1
  | inr e ↦ rw e h
]

trim-IsDistinct : (ef : ℕ) (xs : List (Scored ℕ)) → IsDistinct xs → IsDistinct (trim ef xs)
unfolding trim
trim-IsDistinct ef [] h = tt
trim-IsDistinct ef (x ∷ xs) h = elim (Bool-cases (ltb ef (length (x ∷ xs)))) [
  | inl e ↦ rw e h.1
  | inr e ↦ rw e h
]

length-trim :
    (ef : ℕ) (xs : List (Scored ℕ))
    → 0 < ef
    → length xs ≤ ef + 1
    → 0 < length xs
    → (length (trim ef xs) ≤ ef) × (0 < length (trim ef xs))
unfolding trim
length-trim ef [] h k l = elim l [ ]
length-trim ef (x ∷ xs) h k l = ground arith

pub visited-mark_self :
    (s : Scratch) (n : ℕ) → n < length s.visited_buf → visited (mark s n) n ≡ true
visited-mark_self s n h = ground (arith, get_or-set_self s.visited_buf n s.visit_tag 0 h)

pub visited-mark_ne : (s : Scratch) (n m : ℕ) → n ≢ m → visited (mark s n) m ≡ visited s m
visited-mark_ne s n m h = rw (get_or-set_ne s.visited_buf n m s.visit_tag 0 h) refl

module _ (similarity : ℕ → Float) (neighbours : ℕ → List ℕ) (ef nv : ℕ) where
  -- A queue entry is a visited node under its negated similarity.
  pub record IsFound (s : Scratch) (x : Scored ℕ) : Type 0 where
    pub score : x.0 ≡ float_neg (similarity x.1)
    pub in_range : x.1 < nv
    pub seen : visited s x.1 ≡ true

  pub record IsBeam (b : Beam) : Type 0 where
    pub roomy : nv ≤ length b.scratch.visited_buf
    pub pending : All (IsFound b.scratch) b.cands
    pub found : All (IsFound b.scratch) b.results
    pub distinct : IsDistinct b.results
    pub bounded : length b.results ≤ ef
    pub nonempty : 0 < length b.results

  IsFound-mark :
      (s : Scratch) (n : ℕ) (x : Scored ℕ)
      → nv ≤ length s.visited_buf
      → IsFound s x
      → IsFound (mark s n) x
  IsFound-mark s n x r f = record {
    score = f.score;
    in_range = f.in_range;
    seen = elim (ℕ_discrete n x.1) [
      | yes e ↦
          subst (λ m. visited (mark s n) m ≡ true) e
            (visited-mark_self s n (omega (arith, f.in_range, e)))
      | no e ↦ visited-mark_ne s n x.1 e ∙ f.seen
    ];
  }

  All-IsFound-mark :
      (s : Scratch) (n : ℕ) (xs : List (Scored ℕ))
      → nv ≤ length s.visited_buf
      → All (IsFound s) xs
      → All (IsFound (mark s n)) xs
  All-IsFound-mark s n xs r =
      All-imp (IsFound s) (IsFound (mark s n)) (λ x. IsFound-mark s n x r) xs

  -- a node that is not visited is none of the entries
  is_new :
      (s : Scratch) (n : ℕ) (xs : List (Scored ℕ))
      → visited s n ≡ false
      → All (IsFound s) xs
      → All (λ y. y.1 ≢ n) xs
  is_new s n xs h =
      All-imp (IsFound s) (λ y. y.1 ≢ n)
        (λ y f e. let p : visited s n ≡ true = subst (λ m. visited s m ≡ true) e f.seen in cc) xs

  pub consider-IsBeam :
      (b : Beam) (nb : ℕ)
      → 0 < ef
      → nb < nv
      → visited b.scratch nb ≡ false
      → IsBeam b
      → IsBeam (consider similarity neighbours ef b nb)
  unfolding consider
  consider-IsBeam b nb pos lt fresh v =
      let roomy : nv ≤ length (mark b.scratch nb).visited_buf =
        omega (arith, v.roomy, length-set b.scratch.visited_buf nb b.scratch.visit_tag) in
      let pending = All-IsFound-mark b.scratch nb b.cands v.roomy v.pending in
      let found = All-IsFound-mark b.scratch nb b.results v.roomy v.found in
      let x : Scored ℕ = (float_neg (similarity nb), nb) in
      let here : IsFound (mark b.scratch nb) x = record {
        score = refl;
        in_range = lt;
        seen = visited-mark_self b.scratch nb (omega (arith, v.roomy));
      } in
      elim (Bool-cases
        (float_lt (worst_of b.results) (similarity nb) || ltb (length b.results) ef)) [
          | inl e ↦
              let pushed = push larger x b.results in
              let size = length-push larger x b.results in
              let trimmed =
                length-trim ef pushed pos (omega (arith, size, v.bounded)) (omega (arith, size)) in
              rw e (record {
                roomy = roomy;
                pending = All-push pair_lt x (IsFound (mark b.scratch nb)) b.cands here pending;
                found =
                    All-trim (IsFound (mark b.scratch nb)) ef pushed
                      (All-push larger x (IsFound (mark b.scratch nb)) b.results here found);
                distinct = trim-IsDistinct ef pushed (
                    push-IsDistinct larger x b.results (is_new b.scratch nb b.results fresh v.found)
                      v.distinct);
                bounded = trimmed.0;
                nonempty = trimmed.1;
              })
          | inr e ↦ rw e (record {
            roomy = roomy;
            pending = pending;
            found = found;
            distinct = v.distinct;
            bounded = v.bounded;
            nonempty = v.nonempty;
          })
        ]

  pub scan-IsBeam :
      (b : Beam) (nbs : List ℕ)
      → 0 < ef
      → All (λ n. n < nv) nbs
      → IsBeam b
      → IsBeam (scan similarity neighbours ef b nbs)
  unfolding scan
  scan-IsBeam b [] pos h v = v
  scan-IsBeam b (nb ∷ nbs) pos h v = elim (Bool-cases (visited b.scratch nb)) [
    | inl e ↦ rw e (scan-IsBeam b nbs pos h.1 v)
    | inr e ↦ rw e (
        scan-IsBeam (consider similarity neighbours ef b nb) nbs pos h.1
          (consider-IsBeam b nb pos h.0 e v))
  ]
