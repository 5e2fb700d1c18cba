-- ===== src/Tests/Paged.antt =====
-- Runs of src/paged_index.cpp.
use neuraldatabase.Prelude.{
  ℕ, ◌*◌, ◌+◌, ◌/◌, ◌<◌, ◌≡◌, refl, ◌⊎◌, arith, true, none, some, replicate, List, [], ◌∷◌, length,
  get_or, ltb, if◌then◌else◌,
}
use neuraldatabase.Float.{Float}
use neuraldatabase.Bytes.{le_bytes, write_words}
use neuraldatabase.Paged.{
  PagedStore, opened, open_store, page_size, pwrite, find_page, erase_page, invalidate,
  vector_offset, write_vector, push, map_page, load_page, word_at, vector_in, fetch, get,
}
use neuraldatabase.Hnsw.State
use neuraldatabase.Hnsw.State.{HnswConfig}
use neuraldatabase.Paged.Index.{PagedIndex, evicts, reading, open_index}
use neuraldatabase.Paged.Cache.{IsCache, get-IsCache}
use neuraldatabase.Paged.Reads.{IsStore, get-IsStore, get_uncached}
use neuraldatabase.Paged.Steps.{push-IsStore, open_store-IsStore}

-- for vectors of two floats, with a cache of one page
empty : PagedStore
empty = record {
  dim = 2;
  vectors_per_page = 511;
  max_cached_pages = 1;
  n_vectors = 0;
  lru_order = [];
  page_cache = [];
  file = [];
}

empty_opens : open_store 2 0 true [] ≡ opened empty
unfolding open_store empty
empty_opens = refl

abbrev pair : List Float
pair = 300 ∷ 7 ∷ []

one : PagedStore
one = (push empty pair).1

push-IsStore_example : ((push empty pair).0 ≡ 0) × IsStore (push empty pair).1 (pair ∷ [])
unfolding empty
push-IsStore_example =
    push-IsStore empty [] pair (open_store-IsStore 2 0 empty empty_opens) (omega arith)
      (refl, omega arith)

one-IsStore : IsStore one (pair ∷ [])
unfolding one empty
one-IsStore =
    (push-IsStore empty [] pair (open_store-IsStore 2 0 empty empty_opens) (omega arith)
      (refl, omega arith)).1

get-IsStore_example :
    ((j : ℕ) → j < one.dim → (get one 0).0 j ≡ get_or pair j 0) ⊎ ((j : ℕ) → (get one 0).0 j ≡ 0)
get-IsStore_example = get-IsStore one (pair ∷ []) 0 one-IsStore (omega arith)

get-IsCache_example : IsCache (get one 0).1 × IsCache (push one pair).1
get-IsCache_example = get-IsCache one 0 pair one-IsStore.cache

one_uncached : find_page (0 / one.vectors_per_page) one.page_cache ≡ none
unfolding one empty push invalidate find_page
one_uncached = refl

one_dim : one.dim ≡ 2
unfolding one empty push invalidate find_page
one_dim = refl

get_uncached_example : (get one 0).0 1 ≡ (
    if ltb (length one.file) (0 / one.vectors_per_page * page_size + page_size)
    then 0
    else get_or pair 1 0)
get_uncached_example =
    get_uncached one (pair ∷ []) 0 1 one-IsStore (omega arith) (omega (arith, one_dim)) one_uncached

-- The vector that was just pushed is read as zeros.
last_page_runs : (get one 0).0 0 ≡ 0
unfolding one empty push invalidate find_page erase_page get fetch map_page write_vector pwrite
    vector_offset write_words le_bytes vector_in word_at
last_page_runs = refl

abbrev cfg : HnswConfig
cfg = record { m = 2; ef_construction = 4; ef_search = 4 }

-- the index that opens with `empty`
abbrev paged : PagedIndex
paged = record { dim = 2; store = empty; hnsw = reading (State.new_index 2 cfg) empty }

paged_opens : open_index 2 0 cfg true [] ≡ some paged
unfolding open_index open_store empty
paged_opens = refl

-- With a cache of one page, the read of a vector on another page evicts the first.
paged_evicts : evicts (push paged.store pair).1 (0 ∷ 511 ∷ []) ≡ true
unfolding empty push invalidate find_page erase_page evicts get fetch load_page
paged_evicts = refl

-- On the file of an earlier run the slots do not run with the internal ids.
abbrev reopened : PagedStore
reopened = record empty { n_vectors = 511; file = replicate 4096 0 }

reopened_opens :
    open_index 2 0 cfg true (replicate 4096 0)
    ≡ some (record { dim = 2; store = reopened; hnsw = reading (State.new_index 2 cfg) reopened })
unfolding open_index open_store empty
reopened_opens = refl

reopened_apart : ((push reopened pair).0 ≡ 511) × ((State.new_index 2 cfg).num_vectors ≡ 0)
unfolding push empty State.new_index
reopened_apart = (refl, refl)
