-- ===== src/Hnsw/Insert/Connect.antt =====
-- src/hnsw.cpp: the links that `insert` makes stay in the graph and within Mmax.
use neuraldatabase.Prelude.{
  ℕ, ◌≤◌, ◌<◌, subst, ◌∙◌, inl, inr, List, [], ◌∷◌, ◌++◌, map, arith, All, All-append, All-map,
  All-take, Bool-cases, length, length-map, length-take, length-set, take, ltb, get_or, set,
}
use neuraldatabase.Float.{Float}
use neuraldatabase.Kernels.{Arith}
use neuraldatabase.Ranking.{Scored, sort_desc}
use neuraldatabase.Ranking.Sorted.{All-sort_desc}
use neuraldatabase.Hnsw.State.{HnswConfig, HnswIndex, Graph, links, grow, set_links, get_vec}
use neuraldatabase.Hnsw.Links.{links-set_links, links-grow}
use neuraldatabase.Hnsw.Layer.{node_similarity}
use neuraldatabase.Hnsw.Insert.{select_neighbours, max_links, link_back, connect_back, connect_all}
use neuraldatabase.Hnsw.Invariant.{IsGraph}

-- The neighbours selected are among the candidates, and at most `m`.
pub select_neighbours-All :
    (P : ℕ → Type 0) (xs : List (Scored ℕ)) (m : ℕ)
    → All (λ x. P x.1) xs
    → All P (select_neighbours xs m)
unfolding select_neighbours
select_neighbours-All P xs m h =
    All-map P (λ x. x.1) (take m (sort_desc xs))
      (All-take (λ x. P x.1) m (sort_desc xs) (All-sort_desc (λ x. P x.1) xs h))

pub length-select_neighbours : (xs : List (Scored ℕ)) (m : ℕ) → length (select_neighbours xs m) ≤ m
unfolding select_neighbours
length-select_neighbours xs m = omega (
  arith,
  length-map {A = Scored ℕ} {B = ℕ} (λ x. x.1) (take m (sort_desc xs)),
  length-take m (sort_desc xs),
)

pub set_links-IsGraph :
    (cfg : HnswConfig) (nv : ℕ) (graph : Graph) (n lc : ℕ) (nbs : List ℕ)
    → IsGraph cfg nv graph
    → All (λ m. m < nv) nbs
    → length nbs ≤ max_links cfg lc
    → IsGraph cfg nv (set_links graph n lc nbs)
set_links-IsGraph cfg nv graph n lc nbs g h k = record {
  nodes = unfold set_links in (length-set graph n (set (get_or graph n []) lc nbs) ∙ g.nodes);
  in_range = λ n' lc'. elim (links-set_links graph n lc n' lc' nbs) [
    | inl e ↦ rw e (g.in_range n' lc')
    | inr (p, e) ↦ rw e h
  ];
  degree = λ n' lc'. elim (links-set_links graph n lc n' lc' nbs) [
    | inl e ↦ rw e (g.degree n' lc')
    | inr (p, e) ↦ rw e (subst (λ l. length nbs ≤ max_links cfg l) p k)
  ];
}

grow-IsGraph :
    (cfg : HnswConfig) (nv : ℕ) (graph : Graph) (nb lc : ℕ)
    → IsGraph cfg nv graph
    → IsGraph cfg nv (set graph nb (grow (get_or graph nb []) lc))
grow-IsGraph cfg nv graph nb lc g = record {
  nodes = length-set graph nb (grow (get_or graph nb []) lc) ∙ g.nodes;
  in_range = λ n lc'. rw (links-grow graph nb lc n lc') (g.in_range n lc');
  degree = λ n lc'. rw (links-grow graph nb lc n lc') (g.degree n lc');
}

module _ (ops : Arith Float) where
  link_back-All :
      (P : ℕ → Type 0) (index : HnswIndex) (q nb mmax : ℕ) (nbs : List ℕ)
      → P q
      → All P nbs
      → All P (link_back ops index q nb mmax nbs)
  unfolding link_back
  link_back-All P index q nb mmax nbs h k =
      let more = nbs ++ q ∷ [] in
      let all = All-append P nbs (q ∷ []) k (h, tt) in
      let score = λ (x : ℕ). node_similarity ops index (get_vec index nb) x in
      elim (Bool-cases (ltb mmax (length more))) [
        | inl e ↦ rw e (
            select_neighbours-All P (map (λ x. (score x, x)) more) mmax
              (All-map {B = Scored ℕ} (λ x. P x.1) (λ x. (score x, x)) more all))
        | inr e ↦ rw e all
      ]

  length-link_back :
      (index : HnswIndex) (q nb mmax : ℕ) (nbs : List ℕ)
      → length (link_back ops index q nb mmax nbs) ≤ mmax
  unfolding link_back
  length-link_back index q nb mmax nbs =
      let more = nbs ++ q ∷ [] in
      let score = λ (x : ℕ). node_similarity ops index (get_vec index nb) x in
      elim (Bool-cases (ltb mmax (length more))) [
        | inl e ↦ rw e (length-select_neighbours (map (λ x. (score x, x)) more) mmax)
        | inr e ↦ rw e (ground arith)
      ]

  pub connect_back-IsGraph :
      (index : HnswIndex) (q lc nb : ℕ)
      → q < index.num_vectors
      → IsGraph index.cfg index.num_vectors index.graph
      → IsGraph index.cfg index.num_vectors (connect_back ops index q lc nb).graph
  unfolding connect_back
  connect_back-IsGraph index q lc nb h g =
      let grown = set index.graph nb (grow (get_or index.graph nb []) lc) in
      let g' = grow-IsGraph index.cfg index.num_vectors index.graph nb lc g in
      let mmax = max_links index.cfg lc in
      set_links-IsGraph index.cfg index.num_vectors grown nb lc _ g'
        (link_back-All (λ m. m < index.num_vectors) index q nb mmax (links grown nb lc) h
          (g'.in_range nb lc))
        (length-link_back index q nb mmax (links grown nb lc))

  pub connect_all-IsGraph :
      (index : HnswIndex) (q lc : ℕ) (nbs : List ℕ)
      → q < index.num_vectors
      → IsGraph index.cfg index.num_vectors index.graph
      → IsGraph index.cfg index.num_vectors (connect_all ops index q lc nbs).graph
  unfolding connect_all connect_back
  connect_all-IsGraph index q lc [] h g = g
  connect_all-IsGraph index q lc (nb ∷ nbs) h g =
      connect_all-IsGraph (connect_back ops index q lc nb) q lc nbs h
        (connect_back-IsGraph index q lc nb h g)
