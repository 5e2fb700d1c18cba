-- ===== src/Hnsw/Query/Exact.antt =====
-- src/hnsw.cpp: with a beam as wide as the index, `search` gives the best live vectors.
use neuraldatabase.Prelude.{
  ℕ, ◌+◌, ◌-◌, ◌≤◌, ◌<◌, ◌≡◌, refl, subst, sym, inl, inr, true, false, Bool, List, [], ◌∷◌, ◌++◌,
  arith, All, All-keep, Bool-cases, Option-cases, length, length-take, take, drop, take-append-drop,
  keep, map, min, zero, suc, get_or, ℕ_discrete, ◌==◌, none,
}
use neuraldatabase.Float.{Float}
use neuraldatabase.Kernels.{Arith}
use neuraldatabase.Ranking.{Scored}
use neuraldatabase.Ranking.Sorted.{IsTop, IsDescending, IsDescending-take, IsTop-drop}
use neuraldatabase.Hnsw.State.{HnswIndex, links}
use neuraldatabase.Hnsw.Invariant.{IsIndex}
use neuraldatabase.Hnsw.Layer.{Scratch, node_similarity, search_layer}
use neuraldatabase.Hnsw.Layer.Results.{IsDistinct}
use neuraldatabase.Hnsw.Layer.Tags.{IsScratch}
use neuraldatabase.Hnsw.Layer.Hits.{IsHit, AreHits, AreNumbers, search_layer-AreHits}
use neuraldatabase.Hnsw.Layer.Ids.{HasId, Linked}
use neuraldatabase.Hnsw.Layer.Reached.{search_layer-HasId}
use neuraldatabase.Hnsw.Insert.{descend}
use neuraldatabase.Hnsw.Insert.Preserve.{descend-lt}
use neuraldatabase.Hnsw.Query.{first_live, live_entry, collect_live, search}
use neuraldatabase.Hnsw.Query.Answer.{
  is_live, live_hit, report, collect_live-take, live_entry-lt, keep-passes, keep-IsDistinct,
  keep-IsDescending,
}

keep-HasId :
    (index : HnswIndex) (n : ℕ) (xs : List (Scored ℕ))
    → is_live index n ≡ true
    → HasId n xs
    → HasId n (keep (live_hit index) xs)
keep-HasId index n [] h i = absurd i
keep-HasId index n (x ∷ xs) h (inl same) =
    let live : live_hit index x ≡ true = subst (λ m. is_live index m ≡ true) (sym same) h in
    rw live (inl same)
keep-HasId index n (x ∷ xs) h (inr later) = elim (Bool-cases (live_hit index x)) [
  | inl e ↦ rw e (inr (keep-HasId index n xs h later))
  | inr e ↦ rw e (keep-HasId index n xs h later)
]

first_live-none :
    (tombstone : List Bool) (i n j : ℕ)
    → first_live tombstone i n ≡ none
    → i ≤ j
    → j < i + n
    → get_or tombstone j false ≡ true
unfolding first_live
first_live-none tombstone i zero j h le lt = absurd (omega arith)
first_live-none tombstone i (suc n) j h le lt = elim (Bool-cases (get_or tombstone i false)) [
  | inl dead ↦ elim (ℕ_discrete i j) [
    | yes same ↦ subst (λ m. get_or tombstone m false ≡ true) same dead
    | no other ↦ first_live-none tombstone (i + 1) n j (ground arith) (omega arith) (omega arith)
  ]
  | inr live ↦ ground arith
]

live_entry-none :
    (index : HnswIndex) (n : ℕ)
    → live_entry index ≡ none
    → n < index.num_vectors
    → is_live index n ≡ false
unfolding live_entry
live_entry-none index n h lt =
    let none_from : first_live index.tombstone 0 index.num_vectors ≡ none = ground arith in
    ground (arith, first_live-none index.tombstone 0 index.num_vectors n none_from)

module _ (ops : Arith Float) (index : HnswIndex) (query : List Float) (k : ℕ) where
  -- The live nodes, each once under its similarity, fall into the chosen, which are reported, and
  -- the rest, of which none beats a chosen one.
  pub record IsExact (results : List (Scored ℕ)) : Type 0 where
    pub chosen : List (Scored ℕ)
    pub rest : List (Scored ℕ)
    pub reported : results ≡ map (report index) chosen
    pub hits : All (IsHit (node_similarity ops index query) index.num_vectors) (chosen ++ rest)
    pub live : All (λ x. is_live index x.1 ≡ true) (chosen ++ rest)
    pub distinct : IsDistinct (chosen ++ rest)
    pub all_live :
        (n : ℕ) → n < index.num_vectors → is_live index n ≡ true → HasId n (chosen ++ rest)
    pub in_order : IsDescending chosen
    pub none_better : All (λ x. IsTop x rest) chosen
    pub size : length chosen ≡ min k (length (chosen ++ rest))

  no_live-IsExact : ((n : ℕ) → n < index.num_vectors → is_live index n ≡ false) → IsExact []
  no_live-IsExact h = record {
    chosen = [];
    rest = [];
    reported = refl;
    hits = tt;
    live = tt;
    distinct = tt;
    all_live = λ n lt l. absurd {A = ⊥} (let dead = h n lt in cc);
    in_order = tt;
    none_better = tt;
    size = omega arith;
  }

  collect_live-IsExact :
      (ef : ℕ) (cands : List (Scored ℕ))
      → 0 < k
      → AreHits (node_similarity ops index query) index.num_vectors ef cands
      → ((n : ℕ) → n < index.num_vectors → is_live index n ≡ true → HasId n cands)
      → IsExact (collect_live index k 0 cands)
  collect_live-IsExact ef cands pos h all =
      let kept = keep (live_hit index) cands in
      let e : k - 0 ≡ k = omega arith in
      let d = keep-IsDescending (live_hit index) cands h.in_order in
      record {
        chosen = take k kept;
        rest = drop k kept;
        reported = rw e at (collect_live-take index k 0 cands pos);
        hits = rw (take-append-drop k kept) (
            All-keep (IsHit (node_similarity ops index query) index.num_vectors) (live_hit index)
              cands h.hits);
        live = rw (take-append-drop k kept) (keep-passes (live_hit index) cands);
        distinct = rw (take-append-drop k kept) (keep-IsDistinct (live_hit index) cands h.distinct);
        all_live = λ n lt l. rw (take-append-drop k kept) (keep-HasId index n cands l (all n lt l));
        in_order = IsDescending-take k kept d;
        none_better = IsTop-drop k kept d;
        size = rw (take-append-drop k kept) (length-take k kept);
      }

  -- Where every live node can be reached over the links of layer 0 from every node, and ef_search is
  -- no less than the number of nodes, a search of an index in order, for k above 0 and with
  -- similarities that are numbers, reports the k best live vectors, or all of them.
  pub search-IsExact :
      (s : Scratch)
      → 0 < k
      → 0 < index.cfg.ef_search
      → index.num_vectors ≤ index.cfg.ef_search
      → ((ep n : ℕ)
          → ep < index.num_vectors
          → n < index.num_vectors
          → is_live index n ≡ true
          → Linked (λ m. links index.graph m 0) ep n)
      → IsIndex index
      → AreNumbers (node_similarity ops index query) index.num_vectors
      → IsScratch s
      → IsExact (search ops index query k s).0
  unfolding search
  search-IsExact s pos ef wide linked h numbers v = elim (Bool-cases (index.num_vectors == 0)) [
    | inl e ↦ rw e (no_live-IsExact (λ n lt. ground arith))
    | inr e ↦ elim (Option-cases (live_entry index)) [
      | inl none_live ↦
          rw (e, none_live) (no_live-IsExact (λ n lt. live_entry-none index n none_live lt))
      | inr (entry, found) ↦
          let at = live_entry-lt index entry (h.entry (ground arith)) found in
          let d = descend-lt ops query index 0 index.max_layer entry s h.graph.in_range at.0 v in
          let (ep, s') = descend ops index query 0 index.max_layer (entry, s) in
          rw (e, found)
            (collect_live-IsExact index.cfg.ef_search
              (search_layer ops index query ep index.cfg.ef_search 0 s').0 pos
              (search_layer-AreHits ops index query ep index.cfg.ef_search 0 s' ef h.graph.in_range
                d.0 d.1 numbers)
              (λ n lt l.
                search_layer-HasId ops index query ep index.cfg.ef_search 0 s' ef h.graph.in_range
                  d.0 d.1 n wide (linked ep n d.0 lt l)))
    ]
  ]
