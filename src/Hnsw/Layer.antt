-- ===== src/Hnsw/Layer.antt =====
-- src/hnsw.cpp: `search_layer_`, the beam search on one layer.
pub mod Results
pub mod Loop
pub mod Tags
pub mod Independent
pub mod Hits
pub mod Ids
pub mod Complete
pub mod Reached
use neuraldatabase.Prelude.{
  ℕ, zero, suc, ◌+◌, ◌-◌, ◌%◌, ◌^◌, ◌<◌, Bool, true, false, ◌&&◌, ◌||◌, List, [], ◌∷◌, ◌++◌, map,
  ltb, leb, ◌==◌, if◌then◌else◌, length, get_or, set, replicate,
}
use neuraldatabase.Float.{Float, float_lt, float_neg, neg_infinity}
use neuraldatabase.Kernels.{Arith, cosine_similarity_avx2}
use neuraldatabase.Ranking.{Scored, sort_desc}
use neuraldatabase.Hnsw.State.{HnswIndex, get_vec, links}
use neuraldatabase.Hnsw.Queue.{pair_lt, larger, push}

-- The thread's `visited_buf` and `visit_tag` (a uint16_t), which outlive a search.
pub record Scratch : Type 0 where
  pub visited_buf : List ℕ
  pub visit_tag : ℕ

-- The lines that make room for `nv` nodes and take the next tag; a tag of 0 clears the buffer.
unfoldable pub next_tag : ℕ → Scratch → Scratch
next_tag nv s =
    let buf =
      if ltb (length s.visited_buf) nv
      then s.visited_buf ++ replicate (nv + 10000 - length s.visited_buf) 0
      else s.visited_buf in
    let tag = (s.visit_tag + 1) % 2 ^ 16 in
    if tag == 0
    then record { visited_buf = replicate (length buf) 0; visit_tag = 1 }
    else record { visited_buf = buf; visit_tag = tag }

abbrev pub visited : Scratch → ℕ → Bool
visited s n = get_or s.visited_buf n 0 == s.visit_tag

abbrev pub mark : Scratch → ℕ → Scratch
mark s n = record s { visited_buf = set s.visited_buf n s.visit_tag }

-- The loop's variables. Both queues hold negated similarities.
pub record Beam : Type 0 where
  pub cands : List (Scored ℕ)
  pub results : List (Scored ℕ)
  pub scratch : Scratch

unfoldable pub worst_of : List (Scored ℕ) → Float
worst_of [] = neg_infinity
worst_of (top ∷ _) = float_neg top.0

-- `if (results.size() > ef) results.pop()`
unfoldable pub trim : ℕ → List (Scored ℕ) → List (Scored ℕ)
trim ef [] = []
trim ef (top ∷ rest) = if ltb ef (length (top ∷ rest)) then rest else top ∷ rest

module _ (similarity : ℕ → Float) (neighbours : ℕ → List ℕ) (ef : ℕ) where
  -- the loop over `nbs`, for a neighbour that is not visited
  unfoldable pub consider : Beam → ℕ → Beam
  consider b nb =
      let nb_sim = similarity nb in
      let p : Scored ℕ = (float_neg nb_sim, nb) in
      let marked = mark b.scratch nb in
      if float_lt (worst_of b.results) nb_sim || ltb (length b.results) ef
      then record {
        cands = push pair_lt p b.cands;
        results = trim ef (push larger p b.results);
        scratch = marked;
      }
      else record b { scratch = marked }

  unfoldable pub scan : Beam → List ℕ → Beam
  scan b [] = b
  scan b (nb ∷ nbs) = scan (if visited b.scratch nb then b else consider b nb) nbs

  -- `if (c_sim < worst_sim && results.size() >= ef) break`
  unfoldable pub closed : Scored ℕ → List (Scored ℕ) → Bool
  closed c results = float_lt (float_neg c.0) (worst_of results) && leb ef (length results)

  -- The `while` loop. It pops a candidate each round, and each node becomes one once at most.
  unfoldable pub beam_loop : ℕ → Beam → Beam
  beam_loop zero b = b
  beam_loop (suc fuel) b = elim b.cands [
    | [] ↦ b
    | c ∷ cands ↦ elim (closed c b.results) [
      | true ↦ record b { cands = cands }
      | false ↦ beam_loop fuel (scan (record b { cands = cands }) (neighbours c.1))
    ]
  ]

  -- The queues before the loop.
  unfoldable pub start : ℕ → Scratch → Beam
  start entry_point s =
      let p : Scored ℕ = (float_neg (similarity entry_point), entry_point) in
      record { cands = p ∷ []; results = p ∷ []; scratch = mark s entry_point }

  unfoldable pub run_beam : ℕ → ℕ → Scratch → Beam
  run_beam nv entry_point s = beam_loop (suc nv) (start entry_point (next_tag nv s))

-- The results, popped from the worst to the best with their signs turned, then sorted.
unfoldable pub drain : List (Scored ℕ) → List (Scored ℕ)
drain results = sort_desc (map (λ x. (float_neg x.0, x.1)) results)

module _ (ops : Arith Float) (index : HnswIndex) (query : List Float) where
  -- cosine_similarity_avx2(query, get_vec_(n), dim_)
  unfoldable pub node_similarity : ℕ → Float
  node_similarity n =
      cosine_similarity_avx2 ops (λ i. get_or query i 0) (λ i. get_or (get_vec index n) i 0)
        index.dim

  unfoldable pub search_layer : (entry_point ef layer : ℕ) → Scratch → List (Scored ℕ) × Scratch
  search_layer entry_point ef layer s =
      let b =
        run_beam node_similarity (λ n. links index.graph n layer) ef index.num_vectors entry_point
          s in
      (drain b.results, b.scratch)
