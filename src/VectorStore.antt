-- ===== src/VectorStore.antt =====
-- src/vector_store.cpp, include/vector_store.hpp: the brute-force index. A std::string is the list
-- of its bytes; a `const float*` argument is the list of the floats from there on. Lengths are
-- taken to fit the `int` of the loops, and `k` to be no negative number. The parallel loop writes
-- each score once, so its order does not matter.
pub mod Search
pub mod Optimal
pub mod Deletion
use neuraldatabase.Prelude.{
  ℕ, ◌+◌, Bool, true, false, not, ◌&&◌, List, [], ◌∷◌, ◌++◌, ◌==◌, if◌then◌else◌, length, get_or,
  take, keep, min,
}
use neuraldatabase.Float.{Float, neg_infinity}
use neuraldatabase.Kernels.{Arith, cosine_similarity_avx2}
use neuraldatabase.Ranking.{Scored, sort_desc}

pub record Vector : Type 0 where
  pub id : ℕ
  pub metadata : List ℕ
  pub values : List Float
  pub deleted : Bool

pub record SearchResult : Type 0 where
  pub id : ℕ
  pub score : Float
  pub metadata : List ℕ

pub record FlatIndex : Type 0 where
  pub dim : ℕ
  pub vectors : List Vector

-- A method that checks a dimension throws std::invalid_argument where it does not fit.
pub data Checked (A : Type 0) : Type 0 where
  ok : A → Checked A
  dimension_mismatch : Checked A

unfoldable pub new_index : ℕ → FlatIndex
new_index dim = record { dim = dim; vectors = [] }

unfoldable pub insert : FlatIndex → ℕ → List Float → List ℕ → FlatIndex
insert index id vec metadata = record index {
  vectors =
      index.vectors
      ++ record { id = id; metadata = metadata; values = take index.dim vec; deleted = false } ∷ [];
}

unfoldable pub insert_checked : FlatIndex → ℕ → List Float → List ℕ → Checked FlatIndex
unfolding insert
insert_checked index id vec metadata =
    if length vec == index.dim then ok (insert index id vec metadata) else dimension_mismatch

-- The loop of `delete_vector`: it marks the first vector with the id and returns.
unfoldable pub mark_first : ℕ → List Vector → List Vector
mark_first id [] = []
mark_first id (v ∷ vs) =
    let rest = mark_first id vs in if v.id == id then record v { deleted = true } ∷ vs else v ∷ rest

unfoldable pub delete_vector : FlatIndex → ℕ → FlatIndex
unfolding mark_first
delete_vector index id = record index { vectors = mark_first id index.vectors }

-- std::remove_if and erase keep the others in their order
unfoldable pub compact : FlatIndex → FlatIndex
compact index = record index { vectors = keep (λ v. not v.deleted) index.vectors }

unfoldable pub live_size : FlatIndex → ℕ
live_size index = length (keep (λ v. not v.deleted) index.vectors)

abbrev pub no_vector : Vector
no_vector = record { id = 0; metadata = []; values = []; deleted = false }

-- The scoring loop: `counts` is its test, and the second part of a score the index.
unfoldable pub scores_from : (Vector → Bool) → (Vector → Float) → ℕ → List Vector → List (Scored ℕ)
scores_from counts similarity i [] = []
scores_from counts similarity i (v ∷ vs) =
    (if counts v then similarity v else neg_infinity, i) ∷ scores_from counts similarity (i + 1) vs

-- The collecting loop: it breaks at the first score of minus infinity.
unfoldable pub collect : List Vector → List (Scored ℕ) → List SearchResult
collect vectors [] = []
collect vectors ((score, idx) ∷ rest) =
    let more = collect vectors rest in
    let v = get_or vectors idx no_vector in
    if score == neg_infinity
    then []
    else record { id = v.id; score = score; metadata = v.metadata } ∷ more

-- What `search` and `search_filtered` have in common.
unfoldable pub search_where :
    (Vector → Bool) → (Vector → Float) → List Vector → ℕ → List SearchResult
unfolding scores_from sort_desc collect
search_where counts similarity [] k = []
search_where counts similarity (v ∷ vs) k =
    let vectors = v ∷ vs in
    collect vectors
      (take (min k (length vectors)) (sort_desc (scores_from counts similarity 0 vectors)))

module _ (ops : Arith Float) where
  -- cosine_similarity_avx2(query, v.ptr(), dim_)
  unfoldable pub similarity : FlatIndex → List Float → Vector → Float
  similarity index query v =
      cosine_similarity_avx2 ops (λ i. get_or query i 0) (λ i. get_or v.values i 0) index.dim

  unfoldable pub search : FlatIndex → List Float → ℕ → List SearchResult
  unfolding search_where
  search index query k = search_where (λ v. not v.deleted) (similarity index query) index.vectors k

  unfoldable pub search_checked : FlatIndex → List Float → ℕ → Checked (List SearchResult)
  unfolding search
  search_checked index query k =
      if length query == index.dim then ok (search index query k) else dimension_mismatch

  unfoldable pub search_filtered : FlatIndex → List Float → ℕ → (List ℕ → Bool) → List SearchResult
  unfolding search_where
  search_filtered index query k filter_fn =
      search_where (λ v. not v.deleted && filter_fn v.metadata) (similarity index query)
        index.vectors k
