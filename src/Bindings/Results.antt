-- ===== src/Bindings/Results.antt =====
-- python/bindings.cpp: which results `search` returns, and with which metadata.
use neuraldatabase.Prelude.{
  ℕ, zero, suc, ◌+◌, ◌-◌, ◌*◌, ◌<◌, ◌≤◌, ◌≡◌, refl, ap, ◌∙◌, inl, inr, Bool, Bool-cases,
  Option-cases, All, All-imp, some, List, [], ◌∷◌, ◌++◌, map, arith, leb, ◌==◌, length, get_or,
  take, keep,
}
use neuraldatabase.Float.{Float}
use neuraldatabase.Kernels.{Arith}
use neuraldatabase.Ranking.{Scored}
use neuraldatabase.Filter.{Json, Text, WhereClause, parse_where, evaluate_filter}
use neuraldatabase.Hnsw.State.{HnswIndex}
use neuraldatabase.Hnsw.Invariant.{IsIndex}
use neuraldatabase.Hnsw.Layer.{Scratch}
use neuraldatabase.Hnsw.Query
use neuraldatabase.Hnsw.Insert.{append_node, insert}
use neuraldatabase.Hnsw.Insert.Arrays.{insert-Rewired}
use neuraldatabase.Hnsw.Tombstones.{find_from}
use neuraldatabase.Hnsw.Tombstones.Marks.{find_from-found, find_from-absent}
use neuraldatabase.Hnsw.Query.Answer.{IsAnswer, report, search-IsAnswer}
use neuraldatabase.Hnsw.Layer.Hits.{AreNumbers, IsHit}
use neuraldatabase.Hnsw.Layer.Tags.{IsScratch}
use neuraldatabase.Hnsw.Layer.{node_similarity}
use neuraldatabase.Bindings.{internal_id, meta_of, hit_of, collect_hits, search, Hit}

collect_hits-take :
    (index : HnswIndex) (passes : Text → Bool) (k n : ℕ) (raw : List (Scored ℕ))
    → collect_hits index passes k n raw
      ≡ map (hit_of index) (take (k - n) (keep (λ x. passes (meta_of index x.1)) raw))
unfolding collect_hits
collect_hits-take index passes k n [] = take-nil (k - n)
  where
    take-nil : (m : ℕ) → [] ≡ map (hit_of index) (take m [])
    take-nil zero = refl
    take-nil (suc m) = refl
collect_hits-take index passes k n (x ∷ raw) = elim (Bool-cases (leb k n)) [
  | inl e ↦ let none_left : k - n ≡ 0 = ground arith in rw (e, none_left) refl
  | inr e ↦ elim (Bool-cases (passes (meta_of index x.1))) [
    | inr e' ↦ rw (e, e') (collect_hits-take index passes k n raw)
    | inl e' ↦
        let some_left : k - n ≡ suc (k - (n + 1)) = ground arith in
        rw (e, e', some_left)
          (ap (◌∷◌ (hit_of index x)) (collect_hits-take index passes k (n + 1) raw))
  ]
]

search-collected :
    {J : Type 0} (json : Json J) (ops : Arith Float) (index : HnswIndex) (query : List Float)
    (k : ℕ) (where_json : J) (wc : WhereClause J) (s : Scratch)
    → parse_where json where_json ≡ some wc
    → search json ops index query k (some where_json) s
      ≡ some (
          map (hit_of index) (
            take k (
              keep
                (λ x. evaluate_filter json (meta_of index x.1) wc)
                (Query.search ops index query (k * 4) s).0)))
unfolding search
search-collected json ops index query k where_json wc s h =
    let raw = (Query.search ops index query (k * 4) s).0 in
    let passes = λ (text : Text). evaluate_filter json text wc in
    let e : k - 0 ≡ k = omega arith in
    rw (search, h)
      (ap some (
        collect_hits-take index passes k 0 raw
        ∙ ap (λ n. map (hit_of index) (take n (keep (λ x. passes (meta_of index x.1)) raw))) e))

-- No two of the first `n` nodes have one id.
abbrev pub HasDistinctIds : List ℕ → ℕ → Type 0
HasDistinctIds id_map n = (i j : ℕ) → i < n → j < n → get_or id_map i 0 ≡ get_or id_map j 0 → i ≡ j

-- Among distinct ids the loop over them finds the node itself.
find_from_self :
    (id_map : List ℕ) (n j : ℕ)
    → HasDistinctIds id_map n
    → j < n
    → find_from id_map (get_or id_map j 0) 0 n ≡ some j
find_from_self id_map n j d lt =
    let id = get_or id_map j 0 in
    elim (Option-cases (find_from id_map id 0 n)) [
      | inl e ↦ absurd (find_from-absent id_map id 0 n j e (omega arith) (omega arith) refl)
      | inr (k, e) ↦
          let (inside, same) = find_from-found id_map id 0 n k e in
          let at : k ≡ j = d k j (omega arith) lt same in e ∙ ap some at
    ]

-- A result as the node itself gives it.
abbrev pub own_text : HnswIndex → Scored ℕ → Text
own_text index x = get_or index.metadata x.1 []

abbrev pub own_hit : HnswIndex → Scored ℕ → Hit
own_hit index x = record {
  id = get_or index.id_map x.1 0;
  score = x.0;
  metadata = own_text index x;
}

module _ (index : HnswIndex) (d : HasDistinctIds index.id_map index.num_vectors) where
  meta_of-own :
      (x : Scored ℕ) → x.1 < index.num_vectors → meta_of index (report index x).1 ≡ own_text index x
  unfolding meta_of internal_id
  meta_of-own x lt = rw (internal_id, find_from_self index.id_map index.num_vectors x.1 d lt) refl

  hit_of-own :
      (x : Scored ℕ) → x.1 < index.num_vectors → hit_of index (report index x) ≡ own_hit index x
  unfolding hit_of
  hit_of-own x lt =
      ap (λ (text : Text). record { id = get_or index.id_map x.1 0; score = x.0; metadata = text })
        (meta_of-own x lt)

  hits-own :
      (passes : Text → Bool) (k : ℕ) (chosen : List (Scored ℕ))
      → All (λ x. x.1 < index.num_vectors) chosen
      → map
          (hit_of index)
          (take k (keep (λ x. passes (meta_of index x.1)) (map (report index) chosen)))
        ≡ map (own_hit index) (take k (keep (λ x. passes (own_text index x)) chosen))
  hits-own passes zero chosen h = refl
  hits-own passes (suc k) [] h = refl
  hits-own passes (suc k) (x ∷ chosen) h =
      let own = meta_of-own x h.0 in
      elim (Bool-cases (passes (own_text index x))) [
        | inl e ↦
            rw (own, e)
              (ap
                  (λ y.
                    y
                    ∷ map (hit_of index) (
                        take k
                          (keep (λ z. passes (meta_of index z.1)) (map (report index) chosen))))
                  (hit_of-own x h.0)
                ∙ ap (◌∷◌ (own_hit index x)) (hits-own passes k chosen h.1))
        | inr e ↦ rw (own, e) (hits-own passes (suc k) chosen h.1)
      ]

-- Among distinct ids and with a condition that parses, a search of an index in order, for k and
-- ef_search above 0, with similarities that are numbers, searches the HNSW index for 4 * k and
-- returns the first k of the nodes found whose own metadata meet the condition, in their order,
-- each with its own id, score and metadata.
pub search-take :
    {J : Type 0} (json : Json J) (ops : Arith Float) (index : HnswIndex) (query : List Float)
    (k : ℕ) (where_json : J) (wc : WhereClause J) (s : Scratch)
    → parse_where json where_json ≡ some wc
    → 0 < k
    → 0 < index.cfg.ef_search
    → IsIndex index
    → HasDistinctIds index.id_map index.num_vectors
    → AreNumbers (node_similarity ops index query) index.num_vectors
    → IsScratch s
    → (found : IsAnswer ops index query (k * 4) (Query.search ops index query (k * 4) s).0)
      × (search json ops index query k (some where_json) s
          ≡ some (
              map
                (own_hit index)
                (take k (keep (λ x. evaluate_filter json (own_text index x) wc) found.chosen))))
search-take json ops index query k where_json wc s h pos ef v d numbers fresh =
    let found = search-IsAnswer ops index query (k * 4) s (omega arith) ef v numbers fresh in
    let passes = λ (text : Text). evaluate_filter json text wc in
    (
      found,
      search-collected json ops index query k where_json wc s h
          ∙ ap
              (λ raw.
                some (map (hit_of index) (take k (keep (λ x. passes (meta_of index x.1)) raw))))
              found.reported
          ∙ ap some (
              hits-own index d passes k found.chosen (
                All-imp (IsHit (node_similarity ops index query) index.num_vectors)
                  (λ x. x.1 < index.num_vectors) (λ x hit. hit.in_range) found.chosen found.hits)),
    )

get_or-append :
    {A : Type 0} (xs ys : List A) (i : ℕ) (d : A)
    → i < length xs
    → get_or (xs ++ ys) i d ≡ get_or xs i d
get_or-append [] ys i d h = absurd (omega arith)
get_or-append (x ∷ xs) ys zero d h = refl
get_or-append (x ∷ xs) ys (suc i) d h = get_or-append xs ys i d (omega arith)

find_from-append :
    (xs ys : List ℕ) (id i n j : ℕ)
    → i + n ≤ length xs
    → find_from xs id i n ≡ some j
    → (find_from (xs ++ ys) id i (suc n) ≡ some j) × (j < i + n)
unfolding find_from
find_from-append xs ys id i zero j l h = absurd (ground arith)
find_from-append xs ys id i (suc n) j l h =
    let e = get_or-append xs ys i 0 (omega arith) in
    elim (Bool-cases (get_or xs i 0 == id)) [
      | inl t ↦ ground (arith, e)
      | inr t ↦
          let later : find_from xs id (i + 1) n ≡ some j = rw t at h in
          let ih = find_from-append xs ys id (i + 1) n j (omega arith) later in
          ground (arith, e, ih)
    ]

-- In an index in order that has a node of the id, deleted or not, another insertion of the id leaves
-- the metadata that are reported for it as they were: the new ones are never reported.
pub meta_of-insert :
    (ops : Arith Float) (index : HnswIndex) (id j : ℕ) (vec : List Float) (text : Text) (level : ℕ)
    (s : Scratch)
    → IsIndex index
    → find_from index.id_map id 0 index.num_vectors ≡ some j
    → meta_of (insert ops index id vec text level s).0 id ≡ meta_of index id
unfolding meta_of internal_id append_node
meta_of-insert ops index id j vec text level s h known =
    let n : index.num_vectors + 1 ≡ suc index.num_vectors = omega arith in
    let (found, lt) =
      find_from-append index.id_map (id ∷ []) id 0 index.num_vectors j (omega (arith, h.ids))
        known in
    ap (λ (x : HnswIndex). meta_of x id) (insert-Rewired ops index id vec text level s)
    ∙ rw (internal_id, n, found, known)
        (get_or-append index.metadata (text ∷ []) j [] (omega (arith, h.texts)))
