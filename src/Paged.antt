-- ===== src/Paged.antt =====
-- src/paged_index.cpp, include/paged_index.hpp: vectors in a file of pages, read through a cache of
-- mapped pages (the POSIX branch). A `const float*` is a function from the index. A page is mapped
-- as it stands in the file; a write to it drops it from the cache.
pub mod Layout
pub mod Cache
pub mod Contents
pub mod Shown
pub mod Reads
pub mod Steps
pub mod Index
use neuraldatabase.Prelude.{
  ℕ, zero, suc, ◌+◌, ◌-◌, ◌*◌, ◌/◌, ◌%◌, ◌^◌, Bool, true, false, not, Option, none, some, List, [],
  ◌∷◌, ◌++◌, ltb, leb, ◌==◌, if◌then◌else◌, length, get_or, take, drop, replicate, keep, max,
}
use neuraldatabase.Bytes.{le_bytes, write_words}
use neuraldatabase.Float.{Float}

-- PAGED_PAGE_SIZE
abbrev pub page_size : ℕ
page_size = 4096

-- What `mapping` points to: a calloc'ed buffer, or bytes of the file.
pub data Page : Type 0 where
  zero_page : Page
  mapped : List ℕ → Page

-- `lru_order` has the page used last at its front.
pub record PagedStore : Type 0 where
  pub dim : ℕ
  pub vectors_per_page : ℕ
  pub max_cached_pages : ℕ
  pub n_vectors : ℕ
  pub lru_order : List ℕ
  pub page_cache : List (ℕ × Page)
  pub file : List ℕ

pub data Opened : Type 0 where
  opened : PagedStore → Opened
  dim_too_large : Opened
  cannot_open : Opened

-- The constructor, for a `dim` above 0; `opens` says whether the system opens the file.
unfoldable pub open_store : (dim cache_bytes : ℕ) → Bool → List ℕ → Opened
open_store dim cache_bytes opens file =
    let vpp = 4088 / (dim * 4) in
    if vpp == 0
    then dim_too_large
    else if opens
    then opened (record {
      dim = dim;
      vectors_per_page = vpp;
      max_cached_pages = max 1 (cache_bytes / page_size);
      n_vectors = length file / page_size * vpp;
      lru_order = [];
      page_cache = [];
      file = file;
    })
    else cannot_open

-- a write at an offset; what lies between the end and the offset reads as zeros
unfoldable pub pwrite : List ℕ → ℕ → List ℕ → List ℕ
pwrite file offset bytes =
    take offset (file ++ replicate (offset - length file) 0)
    ++ (bytes ++ drop (offset + length bytes) file)

unfoldable pub find_page : ℕ → List (ℕ × Page) → Option Page
find_page id [] = none
find_page id ((k, page) ∷ rest) =
    let later = find_page id rest in if k == id then some page else later

unfoldable pub erase_page : ℕ → List (ℕ × Page) → List (ℕ × Page)
erase_page id [] = []
erase_page id ((k, page) ∷ rest) =
    let later = erase_page id rest in if k == id then rest else (k, page) ∷ later

-- `lru_order_.erase(it)`
unfoldable pub erase_id : ℕ → List ℕ → List ℕ
erase_id id [] = []
erase_id id (k ∷ rest) = let later = erase_id id rest in if k == id then rest else k ∷ later

-- `back` of a list with `first` at its front
unfoldable pub back : ℕ → List ℕ → ℕ
back first [] = first
back first (k ∷ rest) = back k rest

unfoldable pub pop_back : ℕ → List ℕ → List ℕ
pop_back first [] = []
pop_back first (k ∷ rest) = first ∷ pop_back k rest

-- the end of `push`: the page is dropped from the cache
unfoldable pub invalidate : ℕ → PagedStore → PagedStore
invalidate id s = elim (find_page id s.page_cache) [
  | none ↦ s
  | some page ↦ record s {
    lru_order = erase_id id s.lru_order;
    page_cache = erase_page id s.page_cache;
  }
]

-- where the vector of a slot starts in the file
unfoldable pub vector_offset : (vpp dim slot : ℕ) → ℕ
vector_offset vpp dim slot = slot / vpp * page_size + (8 + slot % vpp * dim * 4)

-- the two writes
unfoldable pub write_vector : (vpp dim slot : ℕ) → List Float → List ℕ → List ℕ
write_vector vpp dim slot vec file =
    let written = pwrite file (vector_offset vpp dim slot) (write_words 4 (take dim vec)) in
    if slot % vpp == 0
    then pwrite written (slot / vpp * page_size) (le_bytes 4 (slot / vpp))
    else written

-- The slot and the store after it.
unfoldable pub push : PagedStore → List Float → ℕ × PagedStore
push s vec =
    let slot = s.n_vectors % 2 ^ 32 in
    (
      slot,
      invalidate (slot / s.vectors_per_page) (record s {
        n_vectors = s.n_vectors + 1;
        file = write_vector s.vectors_per_page s.dim slot vec s.file;
      }),
    )

unfoldable pub evict_lru : PagedStore → PagedStore
evict_lru s = elim s.lru_order [
  | [] ↦ s
  | first ∷ rest ↦ record s {
    lru_order = pop_back first rest;
    page_cache = erase_page (back first rest) s.page_cache;
  }
]

-- a page of the file, zeros where the file ends before the page does
unfoldable pub map_page : List ℕ → ℕ → Page
map_page file id =
    if ltb (length file) (id * page_size + page_size)
    then zero_page
    else mapped (take page_size (drop (id * page_size) file))

unfoldable pub load_page : PagedStore → ℕ → PagedStore
load_page s id =
    let room = if leb s.max_cached_pages (length s.page_cache) then evict_lru s else s in
    record room {
      lru_order = id ∷ room.lru_order;
      page_cache = (id, map_page room.file id) ∷ room.page_cache;
    }

abbrev pub byte_at : List ℕ → ℕ → ℕ
byte_at bytes i = get_or bytes i 0

-- a float in bytes
unfoldable pub word_at : List ℕ → ℕ → Float
word_at bytes i =
    byte_at bytes i
    + 256 * (byte_at bytes (i + 1) + 256 * (byte_at bytes (i + 2) + 256 * byte_at bytes (i + 3)))

-- `vec_base + slot_in_page * dim_`
unfoldable pub vector_in : Page → (dim slot_in_page : ℕ) → ℕ → Float
vector_in zero_page dim slot_in_page j = 0
vector_in (mapped bytes) dim slot_in_page j = word_at bytes (8 + slot_in_page * dim * 4 + j * 4)

-- the page, and the store after it was brought to the front or loaded
unfoldable pub fetch : PagedStore → ℕ → Page × PagedStore
fetch s id = elim (find_page id s.page_cache) [
  | none ↦ (map_page s.file id, load_page s id)
  | some page ↦ (page, record s { lru_order = id ∷ erase_id id s.lru_order })
]

-- The pointer, and the store with its cache after the call.
unfoldable pub get : PagedStore → ℕ → (ℕ → Float) × PagedStore
get s slot =
    let (page, s') = fetch s (slot / s.vectors_per_page) in
    (vector_in page s.dim (slot % s.vectors_per_page), s')
