-- ===== src/Cli/Bench.antt =====
-- src/cli.cpp: `main` from the options on. What std::normal_distribution draws is `rand_vec`, the
-- files are `files`, and the index that the parallel loop of insertions leaves is an argument of the
-- measurement.
use neuraldatabase.Prelude.{
  ℕ, zero, suc, ◌+◌, ◌-◌, ◌*◌, ◌≤◌, ◌<◌, Bool, false, ◌||◌, Option, List, [], ◌∷◌, ◌++◌, arith, All,
  Bool-cases, inl, inr, ◌==◌, if◌then◌else◌, length, length-map, length-take, take, drop, keep, map,
  Option-cases,
}
use neuraldatabase.Float.{Float}
use neuraldatabase.Kernels.{Arith}
use neuraldatabase.Ranking.{Scored}
use neuraldatabase.Filter.{Text}
use neuraldatabase.VectorStore
use neuraldatabase.VectorStore.{FlatIndex, SearchResult}
use neuraldatabase.Hnsw.State.{HnswIndex}
use neuraldatabase.Hnsw.Layer.{Scratch}
use neuraldatabase.Hnsw.Query
use neuraldatabase.Hnsw.Query.{live_entry, collect_live}
use neuraldatabase.Hnsw.Query.Answer.{collect_live-take, live_hit, report}
use neuraldatabase.Cli.Npy.{Loaded, cannot_open, too_large, overrun, loaded, load_npy}
use neuraldatabase.Cli.Options.{Options}

-- The vectors of a run, and the dimension that is known then.
pub data Source : Type 0 where
  failed : Source
  vectors : List Float → (n dim : ℕ) → Source

-- `rand_vec` of the `count` seeds from `seed` on, one after another
unfoldable pub generate : (rand_vec : ℕ → ℕ → List Float) → (dim seed count : ℕ) → List Float
generate rand_vec dim seed zero = []
generate rand_vec dim seed (suc count) = rand_vec dim seed ++ generate rand_vec dim (seed + 1) count

unfoldable pub source_of : Loaded → Source
source_of (loaded floats n d) = vectors floats n d
source_of cannot_open = failed
source_of too_large = failed
source_of overrun = failed

-- from the file, if there is a path; otherwise `count` drawn vectors, of 768 if no dimension is set
unfoldable pub obtain :
    (files : Text → Option (List ℕ))
    → (unset : List ℕ) → (rand_vec : ℕ → ℕ → List Float) → (path : Text) → (dim seed count : ℕ)
    → Source
obtain files unset rand_vec [] dim seed count =
    let d = if dim == 0 then 768 else dim in vectors (generate rand_vec d seed count) count d
obtain files unset rand_vec (c ∷ path) dim seed count =
    source_of (load_npy unset (files (c ∷ path)) dim)

-- the training vectors, then the queries in the dimension that these have
unfoldable pub obtain_both :
    (files : Text → Option (List ℕ))
    → (unset : List ℕ) → (rand_vec : ℕ → ℕ → List Float) → Options
    → Source × Source
obtain_both files unset rand_vec o = elim (obtain files unset rand_vec o.emb_path o.dim 0 o.n) [
  | failed ↦ (failed, failed)
  | vectors train n dim ↦
      (vectors train n dim, obtain files unset rand_vec o.query_path dim 999999 100)
]

-- "{}"
abbrev pub no_metadata : Text
no_metadata = 123 ∷ 125 ∷ []

-- `flat.insert(i, train_data.data() + i * dim, "{}")` for the `count` rows from `i` on
unfoldable pub fill_flat : FlatIndex → List Float → (dim i count : ℕ) → FlatIndex
fill_flat flat train dim i zero = flat
fill_flat flat train dim i (suc count) =
    fill_flat (VectorStore.insert flat i (drop (i * dim) train) no_metadata) train dim (i + 1) count

-- std::find
unfoldable pub contains : ℕ → List ℕ → Bool
contains id [] = false
contains id (x ∷ xs) = x == id || contains id xs

-- The loop of `compute_recall`. The recall is this number divided by `k`.
unfoldable pub count_found : (truth : List ℕ) → (results : List (Scored ℕ)) → ℕ
count_found truth [] = 0
count_found truth (r ∷ rs) = (if contains r.1 truth then 1 else 0) + count_found truth rs

abbrev pub set_ef_search : HnswIndex → ℕ → HnswIndex
set_ef_search index ef = record index { cfg = record index.cfg { ef_search = ef } }

module _ (ops : Arith Float) (flat : FlatIndex) (queries : List Float) (dim k : ℕ) where
  -- the loop over the queries, `count` of them from `qi` on: how many of the best are found
  unfoldable pub measure_queries : HnswIndex → (qi count : ℕ) → Scratch → List ℕ × Scratch
  measure_queries hnsw qi zero s = ([], s)
  measure_queries hnsw qi (suc count) s =
      let query = drop (qi * dim) queries in
      let (results, s') = Query.search ops hnsw query k s in
      let truth = map (λ (r : SearchResult). r.id) (VectorStore.search ops flat query k) in
      let (rest, s'') = measure_queries hnsw (qi + 1) count s' in
      (count_found truth results ∷ rest, s'')

  -- the loop over `ef_values`
  unfoldable pub measure_all :
      HnswIndex → (count : ℕ) → (ef_values : List ℕ) → Scratch → List (ℕ × List ℕ)
  measure_all hnsw count [] s = []
  measure_all hnsw count (ef ∷ efs) s =
      let (found, s') = measure_queries (set_ef_search hnsw ef) 0 count s in
      (ef, found) ∷ measure_all (set_ef_search hnsw ef) count efs s'

count_found-le :
    (truth : List ℕ) (results : List (Scored ℕ)) → count_found truth results ≤ length results
unfolding count_found
count_found-le truth [] = omega arith
count_found-le truth (r ∷ rs) = ground (arith, count_found-le truth rs)

length-collect_live :
    (index : HnswIndex) (k : ℕ) (cands : List (Scored ℕ))
    → 0 < k
    → length (collect_live index k 0 cands) ≤ k
length-collect_live index k cands pos =
    let kept = keep (live_hit index) cands in
    rw (collect_live-take index k 0 cands pos) (
      omega (
        arith,
        length-map {A = Scored ℕ} {B = Scored ℕ} (report index) (take (k - 0) kept),
        length-take (k - 0) kept,
      ))

module _ (ops : Arith Float) where
  length-search :
      (index : HnswIndex) (query : List Float) (k : ℕ) (s : Scratch)
      → 0 < k
      → length (Query.search ops index query k s).0 ≤ k
  unfolding Query.search
  length-search index query k s pos = elim (Bool-cases (index.num_vectors == 0)) [
    | inl e ↦ rw e (omega arith)
    | inr e ↦ elim (Option-cases (live_entry index)) [
      | inl none' ↦ rw (e, none', Query.search) (omega arith)
      | inr (entry, some') ↦ rw (e, some', Query.search) (length-collect_live index k _ pos)
    ]
  ]

module _ (ops : Arith Float) (flat : FlatIndex) (queries : List Float) (dim k : ℕ)
    (pos : 0 < k) where
  measure_queries-le :
      (hnsw : HnswIndex) (qi count : ℕ) (s : Scratch)
      → All (λ found. found ≤ k) (measure_queries ops flat queries dim k hnsw qi count s).0
  unfolding measure_queries
  measure_queries-le hnsw qi zero s = tt
  measure_queries-le hnsw qi (suc count) s =
      let query = drop (qi * dim) queries in
      let (results, s') = Query.search ops hnsw query k s in
      let truth = map (λ (r : SearchResult). r.id) (VectorStore.search ops flat query k) in
      (
        omega (arith, count_found-le truth results, length-search ops hnsw query k s pos),
        measure_queries-le hnsw (qi + 1) count s',
      )

  -- For k above 0, no recall that is printed is above 1: of each query's results, k at most are
  -- counted.
  pub measure_all-le :
      (hnsw : HnswIndex) (count : ℕ) (ef_values : List ℕ) (s : Scratch)
      → All
          (λ row. All (λ found. found ≤ k) row.1)
          (measure_all ops flat queries dim k hnsw count ef_values s)
  unfolding measure_all
  measure_all-le hnsw count [] s = tt
  measure_all-le hnsw count (ef ∷ efs) s = (
    measure_queries-le (set_ef_search hnsw ef) 0 count s,
    measure_all-le (set_ef_search hnsw ef) count efs _,
  )
