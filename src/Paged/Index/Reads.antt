-- ===== src/Paged/Index/Reads.antt =====
-- src/paged_index.cpp: the reads of one call answer like one function.
use neuraldatabase.Prelude.{
  ℕ, ◌/◌, ◌%◌, ◌<◌, ◌≡◌, refl, sym, ap, subst, ◌∙◌, ◌⊎◌, inl, inr, false, none, some, Option-cases,
  Bool-cases, List, [], ◌∷◌, arith, length, leb, ◌==◌,
}
use neuraldatabase.Paged.{
  Page, PagedStore, find_page, erase_id, map_page, load_page, vector_in, fetch, get,
}
use neuraldatabase.Paged.Steps.{fetch_only}
use neuraldatabase.Paged.Index.{after_reads, evicts}

-- What a read sees depends on the file and on the cached page.
fetch-same :
    (s t : PagedStore) (id : ℕ)
    → t.file ≡ s.file
    → find_page id t.page_cache ≡ find_page id s.page_cache
    → (fetch t id).0 ≡ (fetch s id).0
unfolding fetch
fetch-same s t id f c = elim (Option-cases (find_page id s.page_cache)) [
  | inl e ↦ let o = c ∙ e in rw (fetch, e, o) (ap (λ x. map_page x id) f)
  | inr (page, e) ↦ let o = c ∙ e in rw (fetch, e, o) refl
]

-- the store after a page was loaded with room left
with_page : PagedStore → ℕ → PagedStore
with_page s id = record s {
  lru_order = id ∷ s.lru_order;
  page_cache = (id, map_page s.file id) ∷ s.page_cache;
}

fetch-loaded :
    (s : PagedStore) (id : ℕ)
    → length s.page_cache < s.max_cached_pages
    → find_page id s.page_cache ≡ none
    → (fetch s id).1 ≡ with_page s id
unfolding fetch load_page with_page
fetch-loaded s id room e =
    let full : leb s.max_cached_pages (length s.page_cache) ≡ false = ground arith in
    rw (fetch, e, load_page, full) refl

fetch-with_page :
    (s : PagedStore) (first id : ℕ)
    → find_page first s.page_cache ≡ none
    → (fetch (with_page s first) id).0 ≡ (fetch s id).0
unfolding fetch find_page with_page
fetch-with_page s first id e = elim (Bool-cases (first == id)) [
  | inl same ↦
      let i : first ≡ id = ground arith in
      let o = rw i at e in rw (fetch, find_page, same, o) (ap (λ n. map_page s.file n) i)
  | inr other ↦ fetch-same s (with_page s first) id refl (rw (find_page, other) refl)
]

fetch-touched :
    (s : PagedStore) (id : ℕ) (page : Page)
    → find_page id s.page_cache ≡ some page
    → (fetch s id).1 ≡ record s { lru_order = id ∷ erase_id id s.lru_order }
unfolding fetch
fetch-touched s id page e = rw (fetch, e) refl

-- The read of a page that is cached, or of one for which the cache has room.
abbrev DropsNone : PagedStore → ℕ → Type 0
DropsNone s id =
    ((page : Page) × (find_page id s.page_cache ≡ some page))
    ⊎ ((find_page id s.page_cache ≡ none) × (length s.page_cache < s.max_cached_pages))

-- It changes no other read.
fetch_twice :
    (s : PagedStore) (first id : ℕ)
    → DropsNone s first
    → (fetch (fetch s first).1 id).0 ≡ (fetch s id).0
unfolding with_page
fetch_twice s first id (inl (page, e)) =
    subst (λ (x : PagedStore). (fetch x id).0 ≡ (fetch s id).0) (sym (fetch-touched s first page e))
      (fetch-same s (record s { lru_order = first ∷ erase_id first s.lru_order }) id refl refl)
fetch_twice s first id (inr (e, room)) =
    subst (λ (x : PagedStore). (fetch x id).0 ≡ (fetch s id).0) (sym (fetch-loaded s first room e))
      (fetch-with_page s first id e)

-- It leaves every cached page where it is.
find_page-fetch :
    (s : PagedStore) (first id : ℕ) (page : Page)
    → DropsNone s first
    → find_page id s.page_cache ≡ some page
    → find_page id (fetch s first).1.page_cache ≡ some page
unfolding with_page find_page
find_page-fetch s first id page (inl (other, e)) h =
    subst (λ (x : PagedStore). find_page id x.page_cache ≡ some page)
      (sym (fetch-touched s first other e)) h
find_page-fetch s first id page (inr (e, room)) h =
    subst (λ (x : PagedStore). find_page id x.page_cache ≡ some page)
      (sym (fetch-loaded s first room e))
      (elim (Bool-cases (first == id)) [
        | inl same ↦ let i : first ≡ id = ground arith in absurd (ground (arith, rw i at e))
        | inr other ↦ rw (find_page, other) h
      ])

evicts-cons :
    (s : PagedStore) (first : ℕ) (rest : List ℕ)
    → evicts s (first ∷ rest) ≡ false
    → DropsNone s (first / s.vectors_per_page) × (evicts (get s first).1 rest ≡ false)
unfolding evicts
evicts-cons s first rest h =
    elim (Option-cases (find_page (first / s.vectors_per_page) s.page_cache)) [
      | inr (page, e) ↦ (inl (page, e), rw (evicts, e) at h)
      | inl e ↦ elim (Bool-cases (leb s.max_cached_pages (length s.page_cache))) [
        | inl full ↦ absurd (ground (arith, rw (evicts, e, full) at h))
        | inr room ↦ (inr (e, ground arith), rw (evicts, e, room) at h)
      ]
    ]

get_twice :
    (s : PagedStore) (first slot : ℕ)
    → (fetch (fetch s (first / s.vectors_per_page)).1 (slot / s.vectors_per_page)).0
      ≡ (fetch s (slot / s.vectors_per_page)).0
    → (get (get s first).1 slot).0 ≡ (get s slot).0
unfolding get
get_twice s first slot same =
    let after = (fetch s (first / s.vectors_per_page)).1 in
    ap
      (λ (x : PagedStore).
        vector_in (fetch after (slot / x.vectors_per_page)).0 x.dim (slot % x.vectors_per_page))
      (fetch_only s (first / s.vectors_per_page))
    ∙ ap (λ page. vector_in page s.dim (slot % s.vectors_per_page)) same

-- A read gives what it would have given before the reads that went ahead of it, if none of these
-- evicts a page.
pub get-after_reads :
    (s : PagedStore) (reads : List ℕ) (slot : ℕ)
    → evicts s reads ≡ false
    → (get (after_reads s reads) slot).0 ≡ (get s slot).0
unfolding after_reads
get-after_reads s [] slot h = refl
get-after_reads s (first ∷ rest) slot h =
    let (drops, later) = evicts-cons s first rest h in
    get-after_reads (get s first).1 rest slot later
    ∙ get_twice s first slot
        (fetch_twice s (first / s.vectors_per_page) (slot / s.vectors_per_page) drops)

-- The pages that are cached stay so, if no read evicts one: pointers into them stay valid.
pub find_page-after_reads :
    (s : PagedStore) (reads : List ℕ) (id : ℕ) (page : Page)
    → evicts s reads ≡ false
    → find_page id s.page_cache ≡ some page
    → find_page id (after_reads s reads).page_cache ≡ some page
unfolding after_reads get
find_page-after_reads s [] id page h e = e
find_page-after_reads s (first ∷ rest) id page h e =
    let (drops, later) = evicts-cons s first rest h in
    find_page-after_reads (get s first).1 rest id page later
      (find_page-fetch s (first / s.vectors_per_page) id page drops e)
