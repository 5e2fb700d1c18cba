-- ===== src/Paged/Reads.antt =====
-- src/paged_index.cpp: the vectors of a store, through `push` and `get`.
use neuraldatabase.Prelude.{
  ℕ, ◌+◌, ◌*◌, ◌/◌, ◌%◌, ◌<◌, ◌≤◌, ◌≡◌, refl, ap, ◌∙◌, ◌⊎◌, inl, inr, Bool-cases, none,
  Option-cases, List, [], arith, length, get_or, take, drop, if◌then◌else◌, ltb, All,
}
use neuraldatabase.Bytes.{write_words, Fits}
use neuraldatabase.Float.{Float}
use neuraldatabase.Paged.{
  page_size, Page, zero_page, mapped, PagedStore, find_page, vector_offset, map_page, byte_at,
  word_at, vector_in, fetch, get,
}
use neuraldatabase.Paged.Cache.{IsCache}
use neuraldatabase.Paged.Layout.{word_at-write_words, vector_in_page}
use neuraldatabase.Paged.Contents.{HasVector, IsShown}
use neuraldatabase.Paged.Shown.{find_page-All, map_page-IsShown}

abbrev pub IsVector : ℕ → List Float → Type 0
IsVector dim vec = (length vec ≡ dim) × All (Fits 4) vec

-- The store holds the vectors `vs`: its file has the bytes of each, and its cache is in order and
-- shows the file or zeros.
pub record IsStore (s : PagedStore) (vs : List (List Float)) : Type 0 where
  pub cache : IsCache s
  pub shown : All (IsShown s.file) s.page_cache
  pub count : s.n_vectors ≡ length vs
  pub some_slot : 0 < s.vectors_per_page
  pub page_fits : s.vectors_per_page * s.dim * 4 ≤ 4088
  pub vectors : (slot : ℕ) → slot < length vs → IsVector s.dim (get_or vs slot [])
  pub bytes :
      (slot : ℕ)
      → slot < length vs
      → HasVector s.vectors_per_page s.dim s.file slot (get_or vs slot [])

-- the page shows the float, or zeros
module _ (dim vpp slot : ℕ) (file : List ℕ) (vec : List Float) (pos : 0 < vpp)
    (fits : vpp * dim * 4 ≤ 4088) (is_vector : IsVector dim vec)
    (stored : HasVector vpp dim file slot vec) where
  -- The floats of a mapped page are those of the vector.
  vector_in-mapped :
      (bytes : List ℕ) (j : ℕ)
      → IsShown file (slot / vpp, mapped bytes)
      → j < dim
      → vector_in (mapped bytes) dim (slot % vpp) j ≡ get_or vec j 0
  unfolding vector_in word_at vector_offset
  vector_in-mapped bytes j shown l =
      let base = 8 + slot % vpp * dim * 4 + j * 4 in
      let row = vector_in_page vpp dim slot pos fits in
      let byte : (t : ℕ)
          → t < 4
          → byte_at bytes (base + t) ≡ byte_at (write_words 4 vec) (j * 4 + t) =
        λ t lt.
          shown (base + t) (omega (arith, row))
          ∙ ap (byte_at file) (omega arith)
          ∙ stored (j * 4 + t) (omega arith) in
      let first : byte_at bytes base ≡ byte_at (write_words 4 vec) (j * 4) =
        ap (byte_at bytes) (omega arith)
        ∙ byte 0 (omega arith)
        ∙ ap (byte_at (write_words 4 vec)) (omega arith) in
      rw (first, byte 1 (omega arith), byte 2 (omega arith), byte 3 (omega arith))
        (word_at-write_words vec j is_vector.1 (omega (arith, is_vector.0)))

  vector_in-shown :
      (page : Page)
      → IsShown file (slot / vpp, page)
      → ((j : ℕ) → j < dim → vector_in page dim (slot % vpp) j ≡ get_or vec j 0)
        ⊎ ((j : ℕ) → vector_in page dim (slot % vpp) j ≡ 0)
  unfolding vector_in
  vector_in-shown zero_page shown = inr (λ j. refl)
  vector_in-shown (mapped bytes) shown = inl (λ j l. vector_in-mapped bytes j shown l)

-- the page that `fetch` gives
fetch-IsShown :
    (s : PagedStore) (id : ℕ)
    → All (IsShown s.file) s.page_cache
    → IsShown s.file (id, (fetch s id).0)
unfolding fetch
fetch-IsShown s id a = elim (Option-cases (find_page id s.page_cache)) [
  | inl e ↦ rw (fetch, e) (map_page-IsShown s.file id)
  | inr (page, e) ↦ rw (fetch, e) (find_page-All (IsShown s.file) id s.page_cache page e a)
]

-- Of a store that holds the vectors `vs`, reading a slot gives the floats of its vector, or it gives
-- zeros only.
pub get-IsStore :
    (s : PagedStore) (vs : List (List Float)) (slot : ℕ)
    → IsStore s vs
    → slot < length vs
    → ((j : ℕ) → j < s.dim → (get s slot).0 j ≡ get_or (get_or vs slot []) j 0)
      ⊎ ((j : ℕ) → (get s slot).0 j ≡ 0)
unfolding get
get-IsStore s vs slot h l =
    vector_in-shown s.dim s.vectors_per_page slot s.file (get_or vs slot []) h.some_slot h.page_fits
      (h.vectors slot l) (h.bytes slot l) (fetch s (slot / s.vectors_per_page)).0
      (fetch-IsShown s (slot / s.vectors_per_page) h.shown)

-- Of a store that holds the vectors `vs`, reading a slot whose page is not cached gives the floats
-- of its vector if the file reaches to the end of the page, and zeros if it does not.
pub get_uncached :
    (s : PagedStore) (vs : List (List Float)) (slot j : ℕ)
    → IsStore s vs
    → slot < length vs
    → j < s.dim
    → find_page (slot / s.vectors_per_page) s.page_cache ≡ none
    → (get s slot).0 j ≡ (
        if ltb (length s.file) (slot / s.vectors_per_page * page_size + page_size)
        then 0
        else get_or (get_or vs slot []) j 0)
unfolding get fetch map_page vector_in
get_uncached s vs slot j h l lt e =
    let id = slot / s.vectors_per_page in
    elim (Bool-cases (ltb (length s.file) (id * page_size + page_size))) [
      | inl short ↦ rw (fetch, e, map_page, short) refl
      | inr whole ↦
          rw (fetch, e, map_page, whole)
            (vector_in-mapped s.dim s.vectors_per_page slot s.file (get_or vs slot []) h.some_slot
              h.page_fits (h.vectors slot l) (h.bytes slot l)
              (take page_size (drop (id * page_size) s.file)) j
              (rw (map_page, whole) at (map_page-IsShown s.file id)) lt)
    ]
