-- ===== src/Paged/Shown.antt =====
-- src/paged_index.cpp: each cached page shows the file, or zeros, before and after each step.
use neuraldatabase.Prelude.{
  ℕ, ◌+◌, ◌*◌, ◌≤◌, ◌≡◌, ◌≢◌, refl, subst, ap, ◌∙◌, inl, inr, true, Bool-cases, Option, none, some,
  Option-cases, List-cases, List, [], ◌∷◌, arith, length, drop, ltb, leb, ◌==◌, All,
}
use neuraldatabase.Paged.{
  page_size, Page, PagedStore, find_page, erase_page, back, invalidate, evict_lru, map_page,
  load_page,
}
use neuraldatabase.Paged.Cache.{entries, find_page-none}
use neuraldatabase.Paged.Layout.{byte_at-take, byte_at-drop}
use neuraldatabase.Paged.Contents.{IsShown}

abbrev entry : ℕ → Page → ℕ × Page
entry k page = (k, page)

some_or : {A : Type 0} → A → Option A → A
some_or a none = a
some_or a (some b) = b

module _ (P : ℕ × Page → Type 0) where
  pub find_page-All :
      (id : ℕ) (cache : List (ℕ × Page)) (page : Page)
      → find_page id cache ≡ some page
      → All P cache
      → P (id, page)
  unfolding find_page some_or
  find_page-All id [] page h a = absurd (ground arith)
  find_page-All id ((k, p) ∷ rest) page h a = elim (Bool-cases (k == id)) [
    | inr e ↦ find_page-All id rest page (rw e at h) a.1
    | inl e ↦ subst P (same k id p page e (rw e at h)) a.0
  ]
    where
      same :
          (k id : ℕ) (p page : Page)
          → (k == id) ≡ true
          → some p ≡ some page
          → entry k p ≡ entry id page
      same k id p page e h =
          let i : k ≡ id = ground arith in
          let q : p ≡ page = ap (λ o. some_or p o) h in
          ap (λ n. entry n p) i ∙ ap (λ r. entry id r) q

  pub erase_page-All :
      (id : ℕ) (cache : List (ℕ × Page)) → All P cache → All P (erase_page id cache)
  unfolding erase_page
  erase_page-All id [] a = tt
  erase_page-All id ((k, p) ∷ rest) a = elim (Bool-cases (k == id)) [
    | inl e ↦ rw e a.1
    | inr e ↦ rw e (a.0, erase_page-All id rest a.1)
  ]

module _ (P Q : ℕ × Page → Type 0) (id : ℕ)
    (kept : (k : ℕ) (page : Page) → k ≢ id → P (k, page) → Q (k, page)) where
  others-All : (cache : List (ℕ × Page)) → entries id cache ≡ 0 → All P cache → All Q cache
  unfolding entries
  others-All [] h a = tt
  others-All ((k, p) ∷ rest) h a =
      (kept k p (λ e. ground (arith, h)) a.0, others-All rest (omega (arith, h)) a.1)

  rest-All :
      (cache : List (ℕ × Page)) → entries id cache ≤ 1 → All P cache → All Q (erase_page id cache)
  unfolding entries erase_page
  rest-All [] h a = tt
  rest-All ((k, p) ∷ rest) h a = elim (Bool-cases (k == id)) [
    | inl e ↦ rw e (others-All rest (ground arith) a.1)
    | inr e ↦ rw e (kept k p (λ o. ground arith) a.0, rest-All rest (ground arith) a.1)
  ]

  -- What holds of the other pages holds of the cache once the page is dropped.
  pub invalidate-All :
      (s : PagedStore)
      → entries id s.page_cache ≤ 1
      → All P s.page_cache
      → All Q (invalidate id s).page_cache
  unfolding invalidate
  invalidate-All s h a = elim (Option-cases (find_page id s.page_cache)) [
    | inl e ↦ rw (invalidate, e) (others-All s.page_cache (find_page-none id s.page_cache e) a)
    | inr (page, e) ↦ rw (invalidate, e) (rest-All s.page_cache h a)
  ]

pub map_page-IsShown : (file : List ℕ) (id : ℕ) → IsShown file (id, map_page file id)
unfolding map_page
map_page-IsShown file id = elim (Bool-cases (ltb (length file) (id * page_size + page_size))) [
  | inl e ↦ rw (map_page, e) tt
  | inr e ↦
      rw (map_page, e)
        (λ k h.
          byte_at-take page_size (drop (id * page_size) file) k h
          ∙ byte_at-drop (id * page_size) file k)
]

evict_lru-All :
    (P : ℕ × Page → Type 0) (s : PagedStore) → All P s.page_cache → All P (evict_lru s).page_cache
unfolding evict_lru
evict_lru-All P s a = elim (List-cases s.lru_order) [
  | inl e ↦ rw (evict_lru, e) a
  | inr (first, rest, e) ↦ rw (evict_lru, e) (erase_page-All P (back first rest) s.page_cache a)
]

evict_lru-file : (s : PagedStore) → (evict_lru s).file ≡ s.file
unfolding evict_lru
evict_lru-file s = elim (List-cases s.lru_order) [
  | inl e ↦ rw (evict_lru, e) refl
  | inr (first, rest, e) ↦ rw (evict_lru, e) refl
]

-- What holds of the page that is mapped and of the cached pages holds of the cache with it.
pub load_page-All :
    (P : ℕ × Page → Type 0) (s : PagedStore) (id : ℕ)
    → P (id, map_page s.file id)
    → All P s.page_cache
    → All P (load_page s id).page_cache
unfolding load_page
load_page-All P s id p a = elim (Bool-cases (leb s.max_cached_pages (length s.page_cache))) [
  | inl e ↦ rw (load_page, e, evict_lru-file s) (p, evict_lru-All P s a)
  | inr e ↦ rw (load_page, e) (p, a)
]
