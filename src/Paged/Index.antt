-- ===== src/Paged/Index.antt =====
-- src/paged_index.cpp: PagedIndex, an HNSW index that reads its vectors from a paged store. The
-- pointer that a read gives points into a page of the cache. A call in which no read evicts a page
-- leaves all its pointers valid, and the HNSW call is given one function for its reads: what the
-- store answers when the call starts (Index/Reads.antt). A call in which a read evicts a page may use
-- a pointer into memory that is unmapped, and has no result here. Which slots a call reads, in their
-- order, is an argument.
pub mod Reads
pub mod Paired
use neuraldatabase.Prelude.{
  ℕ, zero, suc, ◌+◌, ◌*◌, ◌/◌, ◌%◌, ◌^◌, ◌≤◌, ◌<◌, ◌≡◌, refl, sym, ap, subst, ◌∙◌, inl, inr, Bool,
  true, false, Option, none, some, List, [], ◌∷◌, ◌++◌, arith, All, Bool-cases, Option-cases,
  List-cases, length, length-append, ltb, leb, ◌==◌, if◌then◌else◌,
}
use neuraldatabase.Float.{Float}
use neuraldatabase.Kernels.{Arith}
use neuraldatabase.Ranking.{Scored}
use neuraldatabase.VectorStore.{Checked, ok, dimension_mismatch}
use neuraldatabase.Hnsw.State
use neuraldatabase.Hnsw.State.{HnswConfig, HnswIndex}
use neuraldatabase.Hnsw.Invariant.{IsIndex}
use neuraldatabase.Hnsw.Layer.{Scratch}
use neuraldatabase.Hnsw.Layer.Tags.{IsScratch}
use neuraldatabase.Hnsw.Insert
use neuraldatabase.Hnsw.Insert.{append_node}
use neuraldatabase.Hnsw.Insert.Arrays.{insert-Rewired}
use neuraldatabase.Hnsw.Insert.Preserve.{insert-IsIndex}
use neuraldatabase.Hnsw.Query
use neuraldatabase.Paged.{
  Page, PagedStore, Opened, opened, dim_too_large, cannot_open, open_store, find_page, erase_page,
  push, evict_lru, map_page, load_page, vector_in, fetch, get,
}
use neuraldatabase.Paged.Shown.{find_page-All}
use neuraldatabase.Paged.Reads.{IsVector, IsStore}
use neuraldatabase.Paged.Steps.{fetch_only, fetch-All}

pub record PagedIndex : Type 0 where
  pub dim : ℕ
  pub store : PagedStore
  pub hnsw : HnswIndex

-- the first `n` elements behind a pointer
unfoldable pub floats : (ℕ → Float) → (i n : ℕ) → List Float
floats p i zero = []
floats p i (suc n) = p i ∷ floats p (i + 1) n

-- the function that is installed, `store_.get(internal_id)`: the floats behind the pointer, which
-- stay there while no page is evicted
unfoldable pub accessor : PagedStore → ℕ → List Float
accessor store id = floats (get store id).0 0 store.dim

-- the store after reads
unfoldable pub after_reads : PagedStore → List ℕ → PagedStore
after_reads store [] = store
after_reads store (slot ∷ slots) = after_reads (get store slot).1 slots

-- One of the reads evicts a page: its own is not cached, and the cache is full.
unfoldable pub evicts : PagedStore → List ℕ → Bool
evicts store [] = false
evicts store (slot ∷ slots) =
    let later = evicts (get store slot).1 slots in
    elim (find_page (slot / store.vectors_per_page) store.page_cache) [
      | none ↦ if leb store.max_cached_pages (length store.page_cache) then true else later
      | some _ ↦ later
    ]

-- the HNSW index with the function installed
abbrev pub reading : HnswIndex → PagedStore → HnswIndex
reading hnsw store = record hnsw { vec_accessor = some (accessor store) }

unfoldable pub open_index :
    (dim cache_bytes : ℕ) → HnswConfig → (opens : Bool) → (file : List ℕ) → Option PagedIndex
open_index dim cache_bytes cfg opens file = elim (open_store dim cache_bytes opens file) [
  | opened store ↦
      some (record { dim = dim; store = store; hnsw = reading (State.new_index dim cfg) store })
  | dim_too_large ↦ none
  | cannot_open ↦ none
]

module _ (ops : Arith Float) where
  unfoldable pub insert :
      PagedIndex
      → (id : ℕ) → List Float
      → List ℕ
      → (level : ℕ) → (reads : List ℕ) → Scratch
      → Option (PagedIndex × Scratch)
  insert p id vec metadata level reads s =
      let store = (push p.store vec).1 in
      let (hnsw, s') = Insert.insert ops (reading p.hnsw store) id vec metadata level s in
      if evicts store reads
      then none
      else some (record p { store = after_reads store reads; hnsw = hnsw }, s')

  unfoldable pub insert_checked :
      PagedIndex
      → (id : ℕ) → List Float
      → List ℕ
      → (level : ℕ) → (reads : List ℕ) → Scratch
      → Checked (Option (PagedIndex × Scratch))
  insert_checked p id vec metadata level reads s =
      if length vec == p.dim
      then ok (insert p id vec metadata level reads s)
      else dimension_mismatch

  unfoldable pub search :
      PagedIndex
      → List Float
      → (k : ℕ) → (reads : List ℕ) → Scratch
      → Option (List (Scored ℕ) × PagedIndex × Scratch)
  search p query k reads s =
      let (results, s') = Query.search ops (reading p.hnsw p.store) query k s in
      if evicts p.store reads
      then none
      else some (results, record p { store = after_reads p.store reads }, s')

  unfoldable pub search_checked :
      PagedIndex
      → List Float
      → (k : ℕ) → (reads : List ℕ) → Scratch
      → Checked (Option (List (Scored ℕ) × PagedIndex × Scratch))
  search_checked p query k reads s =
      if length query == p.dim then ok (search p query k reads s) else dimension_mismatch

-- `size`
abbrev pub size : PagedIndex → ℕ
size p = p.store.n_vectors
