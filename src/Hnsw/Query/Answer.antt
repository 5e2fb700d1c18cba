-- ===== src/Hnsw/Query/Answer.antt =====
-- src/hnsw.cpp: what `HNSWIndex::search` returns.
use neuraldatabase.Prelude.{
  ℕ, zero, suc, ◌+◌, ◌-◌, ◌≤◌, ◌<◌, ◌≡◌, ◌≢◌, refl, ap, inl, inr, Bool, true, false, not, some,
  List, [], ◌∷◌, map, arith, All, All-keep, All-take, Bool-cases, Option-cases, length, length-take,
  take, keep, get_or, ◌==◌,
}
use neuraldatabase.Float.{Float, rank}
use neuraldatabase.Kernels.{Arith}
use neuraldatabase.Ranking.{Scored}
use neuraldatabase.Ranking.Sorted.{IsDescending, IsDescending-take}
use neuraldatabase.Hnsw.State.{HnswIndex}
use neuraldatabase.Hnsw.Invariant.{IsIndex}
use neuraldatabase.Hnsw.Layer.{Scratch, search_layer, node_similarity}
use neuraldatabase.Hnsw.Layer.Results.{IsDistinct}
use neuraldatabase.Hnsw.Layer.Tags.{IsScratch}
use neuraldatabase.Hnsw.Layer.Hits.{IsHit, AreHits, AreNumbers, search_layer-AreHits}
use neuraldatabase.Hnsw.Insert.{descend}
use neuraldatabase.Hnsw.Insert.Preserve.{descend-lt}
use neuraldatabase.Hnsw.Query.{first_live, live_entry, collect_live, search}

module _ (index : HnswIndex) where
  abbrev pub is_live : ℕ → Bool
  is_live n = not (get_or index.tombstone n false)

  abbrev pub live_hit : Scored ℕ → Bool
  live_hit x = is_live x.1

  -- a hit as it is reported, under its external id
  abbrev pub report : Scored ℕ → Scored ℕ
  report x = (x.0, get_or index.id_map x.1 0)

  -- The collecting loop reports the live candidates in order, until there are `k`.
  pub collect_live-take :
      (k n : ℕ) (cands : List (Scored ℕ))
      → n < k
      → collect_live index k n cands ≡ map report (take (k - n) (keep live_hit cands))
  unfolding collect_live
  collect_live-take k n [] h = let e : k - n ≡ suc (k - n - 1) = omega arith in rw e refl
  collect_live-take k n (x ∷ cands) h =
      let e : k - n ≡ suc (k - (n + 1)) = omega arith in
      elim (Bool-cases (get_or index.tombstone x.1 false)) [
        | inl dead ↦ rw dead (collect_live-take k n cands h)
        | inr live ↦ elim (Bool-cases (n + 1 == k)) [
          | inl last ↦ let z : k - (n + 1) ≡ 0 = ground arith in rw (live, last, e, z) refl
          | inr more ↦
              rw (live, more, e)
                (ap (◌∷◌ (report x)) (collect_live-take k (n + 1) cands (ground arith)))
        ]
      ]

  -- Asked for no result, the loop never meets its count and reports every live candidate.
  pub collect_live-zero :
      (n : ℕ) (cands : List (Scored ℕ))
      → collect_live index 0 n cands ≡ map report (keep live_hit cands)
  unfolding collect_live
  collect_live-zero n [] = refl
  collect_live-zero n (x ∷ cands) =
      ground (arith, collect_live-zero n cands, collect_live-zero (n + 1) cands)

  pub first_live-lt :
      (i n j : ℕ) → first_live index.tombstone i n ≡ some j → (j < i + n) × (is_live j ≡ true)
  unfolding first_live
  first_live-lt i zero j h = absurd (ground arith)
  first_live-lt i (suc n) j h = ground (arith, first_live-lt (i + 1) n j)

  -- The search starts at a live node of the index.
  pub live_entry-lt :
      (ep : ℕ)
      → index.entry_point < index.num_vectors
      → live_entry index ≡ some ep
      → (ep < index.num_vectors) × (is_live ep ≡ true)
  unfolding live_entry
  live_entry-lt ep h e = ground (arith, first_live-lt 0 index.num_vectors ep)

module _ {A : Type 0} (p : A → Bool) where
  pub keep-passes : (xs : List A) → All (λ x. p x ≡ true) (keep p xs)
  keep-passes [] = tt
  keep-passes (x ∷ xs) = elim (Bool-cases (p x)) [
    | inl e ↦ rw e (e, keep-passes xs)
    | inr e ↦ rw e (keep-passes xs)
  ]

pub keep-IsDistinct :
    (p : Scored ℕ → Bool) (xs : List (Scored ℕ)) → IsDistinct xs → IsDistinct (keep p xs)
keep-IsDistinct p [] d = tt
keep-IsDistinct p (x ∷ xs) d = elim (Bool-cases (p x)) [
  | inl e ↦ rw e (All-keep (λ y. y.1 ≢ x.1) p xs d.0, keep-IsDistinct p xs d.1)
  | inr e ↦ rw e (keep-IsDistinct p xs d.1)
]

pub keep-IsDescending :
    (p : Scored ℕ → Bool) (xs : List (Scored ℕ)) → IsDescending xs → IsDescending (keep p xs)
keep-IsDescending p [] d = tt
keep-IsDescending p (x ∷ xs) d = elim (Bool-cases (p x)) [
  | inl e ↦ rw e (All-keep (λ y. rank y.0 ≤ rank x.0) p xs d.0, keep-IsDescending p xs d.1)
  | inr e ↦ rw e (keep-IsDescending p xs d.1)
]

pub take-IsDistinct : (n : ℕ) (xs : List (Scored ℕ)) → IsDistinct xs → IsDistinct (take n xs)
take-IsDistinct zero xs d = tt
take-IsDistinct (suc n) [] d = tt
take-IsDistinct (suc n) (x ∷ xs) d = (All-take (λ y. y.1 ≢ x.1) n xs d.0, take-IsDistinct n xs d.1)

module _ (ops : Arith Float) (index : HnswIndex) (query : List Float) (k : ℕ) where
  -- Live nodes of the index, none twice, the most similar first, each under its similarity.
  pub record IsAnswer (results : List (Scored ℕ)) : Type 0 where
    pub chosen : List (Scored ℕ)
    pub reported : results ≡ map (report index) chosen
    pub hits : All (IsHit (node_similarity ops index query) index.num_vectors) chosen
    pub live : All (λ x. is_live index x.1 ≡ true) chosen
    pub distinct : IsDistinct chosen
    pub in_order : IsDescending chosen
    pub size : length chosen ≤ k

  IsAnswer-nil : IsAnswer []
  IsAnswer-nil = record {
    chosen = [];
    reported = refl;
    hits = tt;
    live = tt;
    distinct = tt;
    in_order = tt;
    size = omega arith;
  }

  collect_live-IsAnswer :
      (ef : ℕ) (cands : List (Scored ℕ))
      → 0 < k
      → AreHits (node_similarity ops index query) index.num_vectors ef cands
      → IsAnswer (collect_live index k 0 cands)
  collect_live-IsAnswer ef cands pos h =
      let kept = keep (live_hit index) cands in
      let all : k - 0 ≡ k = omega arith in
      record {
        chosen = take k kept;
        reported = rw all at (collect_live-take index k 0 cands pos);
        hits = All-take (IsHit (node_similarity ops index query) index.num_vectors) k kept (
            All-keep (IsHit (node_similarity ops index query) index.num_vectors) (live_hit index)
              cands h.hits);
        live = All-take (λ x. is_live index x.1 ≡ true) k kept (keep-passes (live_hit index) cands);
        distinct = take-IsDistinct k kept (keep-IsDistinct (live_hit index) cands h.distinct);
        in_order = IsDescending-take k kept (keep-IsDescending (live_hit index) cands h.in_order);
        size = omega (arith, length-take k kept);
      }

  -- A search of an index in order returns at most `k` live vectors, none twice, each under its
  -- similarity to the query, the most similar first.
  pub search-IsAnswer :
      (s : Scratch)
      → 0 < k
      → 0 < index.cfg.ef_search
      → IsIndex index
      → AreNumbers (node_similarity ops index query) index.num_vectors
      → IsScratch s
      → IsAnswer (search ops index query k s).0
  unfolding search
  search-IsAnswer s pos ef h numbers v = elim (Bool-cases (index.num_vectors == 0)) [
    | inl e ↦ rw e IsAnswer-nil
    | inr e ↦ elim (Option-cases (live_entry index)) [
      | inl none_live ↦ rw (e, none_live) IsAnswer-nil
      | inr (entry, found) ↦
          let at = live_entry-lt index entry (h.entry (ground arith)) found in
          let d = descend-lt ops query index 0 index.max_layer entry s h.graph.in_range at.0 v in
          let (ep, s') = descend ops index query 0 index.max_layer (entry, s) in
          rw (e, found)
            (collect_live-IsAnswer index.cfg.ef_search
              (search_layer ops index query ep index.cfg.ef_search 0 s').0 pos
              (search_layer-AreHits ops index query ep index.cfg.ef_search 0 s' ef h.graph.in_range
                d.0 d.1 numbers))
    ]
  ]
