-- ===== src/Hnsw/Layer/Hits.antt =====
-- src/hnsw.cpp: what `search_layer_` returns.
use neuraldatabase.Prelude.{
  ℕ, ◌≤◌, ◌<◌, ◌≡◌, ◌≢◌, sym, ap, ◌∙◌, inl, inr, List, [], ◌∷◌, arith, All, All-imp, All-map,
  Bool-cases, length, length-map, map,
}
use neuraldatabase.Float.{Float, IsNumber, float_neg, float_neg-neg}
use neuraldatabase.Kernels.{Arith}
use neuraldatabase.Ranking.{Scored, before, rank_in, sort_desc}
use neuraldatabase.Ranking.Sorted.{
  HasNumber, IsDescending, All-rank_in, All-sort_desc, sort_desc-IsDescending, length-sort_desc,
}
use neuraldatabase.Hnsw.State.{HnswIndex, links}
use neuraldatabase.Hnsw.Layer.{Scratch, Beam, run_beam, drain, node_similarity, search_layer}
use neuraldatabase.Hnsw.Layer.Results.{IsDistinct, IsFound, IsBeam}
use neuraldatabase.Hnsw.Layer.Tags.{IsScratch}
use neuraldatabase.Hnsw.Layer.Independent.{run_beam-IsBeam, run_beam-IsScratch, run_beam-scratch}

rank_in-IsDistinct :
    (x : Scored ℕ) (xs : List (Scored ℕ))
    → All (λ y. y.1 ≢ x.1) xs
    → IsDistinct xs
    → IsDistinct (rank_in x xs)
unfolding rank_in
rank_in-IsDistinct x [] h d = (tt, tt)
rank_in-IsDistinct x (y ∷ ys) h d = elim (Bool-cases (before y x)) [
  | inl e ↦
      rw e
        (All-rank_in (λ z. z.1 ≢ y.1) x ys (λ p. h.0 (sym p)) d.0, rank_in-IsDistinct x ys h.1 d.1)
  | inr e ↦ rw e (h, d)
]

sort_desc-IsDistinct : (xs : List (Scored ℕ)) → IsDistinct xs → IsDistinct (sort_desc xs)
unfolding sort_desc
sort_desc-IsDistinct [] d = tt
sort_desc-IsDistinct (x ∷ xs) d =
    rank_in-IsDistinct x (sort_desc xs) (All-sort_desc (λ y. y.1 ≢ x.1) xs d.0)
      (sort_desc-IsDistinct xs d.1)

abbrev pub turn : Scored ℕ → Scored ℕ
turn x = (float_neg x.0, x.1)

map-turn-IsDistinct : (xs : List (Scored ℕ)) → IsDistinct xs → IsDistinct (map turn xs)
map-turn-IsDistinct [] d = tt
map-turn-IsDistinct (x ∷ xs) d = (All-map (λ y. y.1 ≢ x.1) turn xs d.0, map-turn-IsDistinct xs d.1)

-- A node in range, under its own similarity.
pub record IsHit (similarity : ℕ → Float) (nv : ℕ) (x : Scored ℕ) : Type 0 where
  pub score : x.0 ≡ similarity x.1
  pub in_range : x.1 < nv

pub record AreHits (similarity : ℕ → Float) (nv ef : ℕ) (xs : List (Scored ℕ)) : Type 0 where
  pub hits : All (IsHit similarity nv) xs
  pub distinct : IsDistinct xs
  pub in_order : IsDescending xs
  pub bounded : length xs ≤ ef
  pub nonempty : 0 < length xs

-- The similarities of the nodes are numbers.
abbrev pub AreNumbers : (ℕ → Float) → ℕ → Type 0
AreNumbers similarity nv = (n : ℕ) → n < nv → IsNumber (similarity n)

HasNumber-IsHit :
    (similarity : ℕ → Float) (nv : ℕ) (xs : List (Scored ℕ))
    → AreNumbers similarity nv
    → All (IsHit similarity nv) xs
    → All HasNumber xs
HasNumber-IsHit similarity nv xs h =
    All-imp (IsHit similarity nv) HasNumber (λ x f. rw f.score (h x.1 f.in_range)) xs

module _ (similarity : ℕ → Float) (neighbours : ℕ → List ℕ) (ef nv : ℕ) where
  drain-AreHits :
      (b : Beam)
      → AreNumbers similarity nv
      → IsBeam similarity neighbours ef nv b
      → AreHits similarity nv ef (drain b.results)
  unfolding drain
  drain-AreHits b word v =
      let size = length-sort_desc (map turn b.results) ∙ length-map turn b.results in
      let turned = All-map (IsHit similarity nv) turn b.results (
        All-imp (IsFound similarity neighbours ef nv b.scratch) (λ x. IsHit similarity nv (turn x))
          (λ x f. record {
            score =
                ap float_neg f.score ∙ float_neg-neg (similarity x.1) (word x.1 f.in_range).word;
            in_range = f.in_range;
          })
          b.results v.found) in
      record {
        hits = All-sort_desc (IsHit similarity nv) (map turn b.results) turned;
        in_order =
            sort_desc-IsDescending (map turn b.results)
              (HasNumber-IsHit similarity nv (map turn b.results) word turned);
        distinct =
            sort_desc-IsDistinct (map turn b.results) (map-turn-IsDistinct b.results v.distinct);
        bounded = omega (arith, size, v.bounded);
        nonempty = omega (arith, size, v.nonempty);
      }

module _ (ops : Arith Float) (index : HnswIndex) (query : List Float) where
  -- what a search needs of the graph: no link leads out of it
  abbrev pub IsClosed : Type 0
  IsClosed = (n lc : ℕ) → All (λ m. m < index.num_vectors) (links index.graph n lc)

  module _ (entry ef layer : ℕ) (s : Scratch) (pos : 0 < ef) (closed : IsClosed)
      (lt : entry < index.num_vectors) (v : IsScratch s) where
    -- From one to `ef` nodes, none twice, each under its similarity to the query.
    pub search_layer-AreHits :
        AreNumbers (node_similarity ops index query) index.num_vectors
        → AreHits
            (node_similarity ops index query)
            index.num_vectors
            ef
            (search_layer ops index query entry ef layer s).0
    unfolding search_layer
    search_layer-AreHits word =
        let sim = node_similarity ops index query in
        let nbs = λ (n : ℕ). links index.graph n layer in
        drain-AreHits sim nbs ef index.num_vectors (run_beam sim nbs ef index.num_vectors entry s)
          word
          (run_beam-IsBeam sim nbs ef index.num_vectors pos (λ n _. closed n layer) entry s lt v)

    pub search_layer-in_range :
        All (λ x. x.1 < index.num_vectors) (search_layer ops index query entry ef layer s).0
    unfolding search_layer drain
    search_layer-in_range =
        let sim = node_similarity ops index query in
        let nbs = λ (n : ℕ). links index.graph n layer in
        let b = run_beam sim nbs ef index.num_vectors entry s in
        let v' =
          run_beam-IsBeam sim nbs ef index.num_vectors pos (λ n _. closed n layer) entry s lt v in
        All-sort_desc (λ x. x.1 < index.num_vectors) (map turn b.results)
          (All-map (λ x. x.1 < index.num_vectors) turn b.results
            (All-imp (IsFound sim nbs ef index.num_vectors b.scratch) (λ x. x.1 < index.num_vectors)
              (λ x f. f.in_range) b.results v'.found))

    pub search_layer-IsScratch : IsScratch (search_layer ops index query entry ef layer s).1
    unfolding search_layer
    search_layer-IsScratch =
        run_beam-IsScratch (node_similarity ops index query) (λ n. links index.graph n layer) ef
          index.num_vectors entry s v

    -- On a graph whose links stay in range, from an entry point in range and for `ef` above 0, a
    -- search finds the same nodes for any two buffers in which no entry passes the tag.
    pub search_layer-scratch :
        (s' : Scratch)
        → IsScratch s'
        → (search_layer ops index query entry ef layer s).0
          ≡ (search_layer ops index query entry ef layer s').0
    unfolding search_layer
    search_layer-scratch s' v' = ap drain (
        run_beam-scratch (node_similarity ops index query) (λ n. links index.graph n layer) ef
          index.num_vectors pos (λ n _. closed n layer) entry s s' lt v v')
