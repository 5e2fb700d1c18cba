-- ===== src/Paged/Cache.antt =====
-- src/paged_index.cpp: the page cache and its order of use.
use neuraldatabase.Prelude.{
  ℕ, suc, ◌+◌, ◌/◌, ◌%◌, ◌^◌, ◌<◌, ◌≤◌, ◌≡◌, refl, ap, inl, inr, none, some, List, [], ◌∷◌, arith,
  leb, ◌==◌, if◌then◌else◌, Bool-cases, Option-cases, List-cases, length,
}
use neuraldatabase.Float.{Float}
use neuraldatabase.Paged.{
  Page, PagedStore, find_page, erase_page, erase_id, back, pop_back, invalidate, push, evict_lru,
  map_page, load_page, fetch, get,
}

-- how often an id stands in the order of use, and in the cache
unfoldable pub uses : ℕ → List ℕ → ℕ
uses id [] = 0
uses id (k ∷ rest) = (if k == id then 1 else 0) + uses id rest

unfoldable pub entries : ℕ → List (ℕ × Page) → ℕ
entries id [] = 0
entries id ((k, page) ∷ rest) = (if k == id then 1 else 0) + entries id rest

-- Each page is cached once at most, the order of use lists exactly the cached pages, and there are
-- no more than the budget allows.
pub record IsCache (s : PagedStore) : Type 0 where
  pub once : (id : ℕ) → entries id s.page_cache ≤ 1
  pub ordered : (id : ℕ) → uses id s.lru_order ≡ entries id s.page_cache
  pub sizes : length s.lru_order ≡ length s.page_cache
  pub budget : length s.page_cache ≤ s.max_cached_pages
  pub room : 0 < s.max_cached_pages

pub find_page-none :
    (id : ℕ) (cache : List (ℕ × Page)) → find_page id cache ≡ none → entries id cache ≡ 0
unfolding find_page entries
find_page-none id [] h = refl
find_page-none id ((k, page) ∷ rest) h = ground (arith, find_page-none id rest)

pub find_page-some :
    (id : ℕ) (cache : List (ℕ × Page)) (page : Page)
    → find_page id cache ≡ some page
    → 0 < entries id cache
unfolding find_page entries
find_page-some id [] page h = absurd (ground arith)
find_page-some id ((k, p) ∷ rest) page h = ground (arith, find_page-some id rest page)

entries-erase_page :
    (id j : ℕ) (cache : List (ℕ × Page))
    → 0 < entries id cache
    → (if id == j then 1 else 0) + entries j (erase_page id cache) ≡ entries j cache
unfolding erase_page entries
entries-erase_page id j [] h = absurd (omega arith)
entries-erase_page id j ((k, page) ∷ rest) h = ground (arith, entries-erase_page id j rest)

length-erase_page :
    (id : ℕ) (cache : List (ℕ × Page))
    → 0 < entries id cache
    → suc (length (erase_page id cache)) ≡ length cache
unfolding erase_page entries
length-erase_page id [] h = absurd (omega arith)
length-erase_page id ((k, page) ∷ rest) h = ground (arith, length-erase_page id rest)

uses-erase_id :
    (id j : ℕ) (order : List ℕ)
    → 0 < uses id order
    → (if id == j then 1 else 0) + uses j (erase_id id order) ≡ uses j order
unfolding erase_id uses
uses-erase_id id j [] h = absurd (omega arith)
uses-erase_id id j (k ∷ rest) h = ground (arith, uses-erase_id id j rest)

length-erase_id :
    (id : ℕ) (order : List ℕ) → 0 < uses id order → suc (length (erase_id id order)) ≡ length order
unfolding erase_id uses
length-erase_id id [] h = absurd (omega arith)
length-erase_id id (k ∷ rest) h = ground (arith, length-erase_id id rest)

uses-pop_back :
    (first j : ℕ) (rest : List ℕ)
    → (if back first rest == j then 1 else 0) + uses j (pop_back first rest) ≡ uses j (first ∷ rest)
unfolding back pop_back uses
uses-pop_back first j [] = omega arith
uses-pop_back first j (k ∷ rest) = omega (arith, uses-pop_back k j rest)

length-pop_back : (first : ℕ) (rest : List ℕ) → length (pop_back first rest) ≡ length rest
unfolding pop_back
length-pop_back first [] = refl
length-pop_back first (k ∷ rest) = ap suc (length-pop_back k rest)

-- The page of an entry is dropped, here and in the order of use.
dropped-IsCache :
    (s : PagedStore) (id : ℕ) (order : List ℕ)
    → IsCache s
    → 0 < entries id s.page_cache
    → ((j : ℕ) → (if id == j then 1 else 0) + uses j order ≡ uses j s.lru_order)
    → suc (length order) ≡ length s.lru_order
    → IsCache (record s { lru_order = order; page_cache = erase_page id s.page_cache })
dropped-IsCache s id order h here u l = record {
  once = λ j. omega (arith, entries-erase_page id j s.page_cache here, h.once j);
  ordered = λ j. omega (arith, entries-erase_page id j s.page_cache here, h.ordered j, u j);
  sizes = omega (arith, length-erase_page id s.page_cache here, h.sizes, l);
  budget = omega (arith, length-erase_page id s.page_cache here, h.budget);
  room = h.room;
}

pub invalidate-IsCache : (id : ℕ) (s : PagedStore) → IsCache s → IsCache (invalidate id s)
unfolding invalidate
invalidate-IsCache id s h = elim (Option-cases (find_page id s.page_cache)) [
  | inl e ↦ rw (invalidate, e) h
  | inr (page, e) ↦
      let here = find_page-some id s.page_cache page e in
      let used : 0 < uses id s.lru_order = omega (arith, here, h.ordered id) in
      rw (invalidate, e)
        (dropped-IsCache s id (erase_id id s.lru_order) h here
          (λ j. uses-erase_id id j s.lru_order used) (length-erase_id id s.lru_order used))
]

-- An eviction makes room for a page and brings none in.
record IsRoom (s s' : PagedStore) : Type 0 where
  cache : IsCache s'
  less : length s'.page_cache < s'.max_cached_pages
  fewer : (id : ℕ) → entries id s'.page_cache ≤ entries id s.page_cache

evict_lru-IsRoom : (s : PagedStore) → IsCache s → 0 < length s.page_cache → IsRoom s (evict_lru s)
unfolding evict_lru
evict_lru-IsRoom s h some_page = elim (List-cases s.lru_order) [
  | inl e ↦ absurd (omega (arith, h.sizes, ap length e))
  | inr (first, rest, e) ↦
      let id = back first rest in
      let u : (j : ℕ)
          → (if id == j then 1 else 0) + uses j (pop_back first rest) ≡ uses j s.lru_order =
        λ j. rw e (uses-pop_back first j rest) in
      let here : 0 < entries id s.page_cache = ground (arith, u id, h.ordered id) in
      rw e (record {
        cache =
            dropped-IsCache s id (pop_back first rest) h here u
              (rw e (ap suc (length-pop_back first rest)));
        less = omega (arith, length-erase_page id s.page_cache here, h.budget);
        fewer = λ j. omega (arith, entries-erase_page id j s.page_cache here);
      })
]

-- Before a page is loaded there is room for it.
room_for : PagedStore → PagedStore
room_for s = if leb s.max_cached_pages (length s.page_cache) then evict_lru s else s

room_for-IsRoom : (s : PagedStore) → IsCache s → IsRoom s (room_for s)
unfolding room_for
room_for-IsRoom s h = elim (Bool-cases (leb s.max_cached_pages (length s.page_cache))) [
  | inl e ↦
      let full : 0 < length s.page_cache = ground (arith, h.room) in
      rw e (evict_lru-IsRoom s h full)
  | inr e ↦ rw e (record { cache = h; less = ground arith; fewer = λ id. omega arith })
]

-- A page that is not cached is put in front.
added-IsCache :
    (s : PagedStore) (id : ℕ) (page : Page)
    → IsCache s
    → length s.page_cache < s.max_cached_pages
    → entries id s.page_cache ≡ 0
    → IsCache (record s { lru_order = id ∷ s.lru_order; page_cache = (id, page) ∷ s.page_cache })
unfolding uses entries
added-IsCache s id page h less new = record {
  once = λ j. ground (arith, h.once j);
  ordered = λ j. omega (arith, h.ordered j);
  sizes = omega (arith, h.sizes);
  budget = omega arith;
  room = h.room;
}

load_page-IsCache :
    (s : PagedStore) (id : ℕ) → IsCache s → entries id s.page_cache ≡ 0 → IsCache (load_page s id)
unfolding load_page room_for
load_page-IsCache s id h new =
    let r = room_for-IsRoom s h in
    added-IsCache (room_for s) id (map_page (room_for s).file id) r.cache r.less
      (omega (arith, r.fewer id))

-- A page that is cached is brought to the front.
moved-IsCache :
    (s : PagedStore) (id : ℕ)
    → IsCache s
    → 0 < entries id s.page_cache
    → IsCache (record s { lru_order = id ∷ erase_id id s.lru_order })
unfolding uses
moved-IsCache s id h here =
    let used : 0 < uses id s.lru_order = omega (arith, h.ordered id) in
    record {
      once = h.once;
      ordered = λ j. omega (arith, uses-erase_id id j s.lru_order used, h.ordered j);
      sizes = omega (arith, length-erase_id id s.lru_order used, h.sizes);
      budget = h.budget;
      room = h.room;
    }

pub fetch-IsCache : (s : PagedStore) (id : ℕ) → IsCache s → IsCache (fetch s id).1
unfolding fetch
fetch-IsCache s id h = elim (Option-cases (find_page id s.page_cache)) [
  | inl e ↦ rw (fetch, e) (load_page-IsCache s id h (find_page-none id s.page_cache e))
  | inr (page, e) ↦ rw (fetch, e) (moved-IsCache s id h (find_page-some id s.page_cache page e))
]

-- Reading a vector and appending one keep the cache in order: each page is cached once at most, the
-- order of use lists exactly the cached pages, and there are no more of them than the budget.
pub get-IsCache :
    (s : PagedStore) (slot : ℕ) (vec : List Float)
    → IsCache s
    → IsCache (get s slot).1 × IsCache (push s vec).1
unfolding get push
get-IsCache s slot vec h = (
  fetch-IsCache s (slot / s.vectors_per_page) h,
  invalidate-IsCache (s.n_vectors % 2 ^ 32 / s.vectors_per_page) _ (record {
    once = h.once;
    ordered = h.ordered;
    sizes = h.sizes;
    budget = h.budget;
    room = h.room;
  }),
)
