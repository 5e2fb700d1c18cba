-- ===== src/Paged/Steps.antt =====
-- src/paged_index.cpp: `push` and `get` keep what a store holds.
use native.Mathlib.Nat.{div-mul-le_self}
use neuraldatabase.Prelude.{
  ℕ, zero, suc, ◌+◌, ◌*◌, ◌/◌, ◌%◌, ◌^◌, ◌<◌, ◌≤◌, ◌≡◌, ◌≢◌, refl, sym, subst, ap, ◌∙◌, ◌⊎◌, inl,
  inr, true, Bool-cases, Option-cases, List, [], ◌∷◌, ◌++◌, arith, length, get_or, length-append,
  ltb, leb, ◌==◌, List-cases, ℕ_discrete, All,
}
use neuraldatabase.Float.{Float}
use neuraldatabase.Paged.{
  Opened, opened, dim_too_large, cannot_open, open_store, evict_lru, page_size, Page, zero_page,
  mapped, PagedStore, find_page, invalidate, write_vector, push, load_page, map_page, fetch, get,
}
use neuraldatabase.Paged.Cache.{IsCache, get-IsCache, fetch-IsCache, uses, entries}
use neuraldatabase.Paged.Contents.{
  IsShown, write_vector_elsewhere, write_vector_self, write_vector_other,
}
use neuraldatabase.Paged.Shown.{invalidate-All, load_page-All, map_page-IsShown}
use neuraldatabase.Paged.Reads.{IsVector, IsStore}

get_or-append_lt :
    (vs : List (List Float)) (v : List Float) (slot : ℕ)
    → slot < length vs
    → get_or (vs ++ v ∷ []) slot [] ≡ get_or vs slot []
get_or-append_lt [] v slot h = absurd (omega arith)
get_or-append_lt (x ∷ vs) v zero h = refl
get_or-append_lt (x ∷ vs) v (suc slot) h = get_or-append_lt vs v slot (omega arith)

get_or-append_last :
    (vs : List (List Float)) (v : List Float) → get_or (vs ++ v ∷ []) (length vs) [] ≡ v
get_or-append_last [] v = refl
get_or-append_last (x ∷ vs) v = get_or-append_last vs v

pub invalidate_only :
    (id : ℕ) (s : PagedStore)
    → invalidate id s ≡ record s {
      lru_order = (invalidate id s).lru_order;
      page_cache = (invalidate id s).page_cache;
    }
unfolding invalidate
invalidate_only id s = elim (Option-cases (find_page id s.page_cache)) [
  | inl e ↦ rw (invalidate, e) refl
  | inr (page, e) ↦ rw (invalidate, e) refl
]

store_or : PagedStore → Opened → PagedStore
store_or s (opened t) = t
store_or s dim_too_large = s
store_or s cannot_open = s

un_opened : {s t : PagedStore} → opened s ≡ opened t → s ≡ t
unfolding store_or
un_opened {s = s} h = ap (λ o. store_or s o) h

module _ (vpp dim slot : ℕ) (vec : List Float) (file : List ℕ) (pos : 0 < vpp)
    (fits : vpp * dim * 4 ≤ 4088) (l : length vec ≡ dim) where
  -- a page that the write does not touch
  write_vector-IsShown :
      (k : ℕ) (page : Page)
      → k ≢ slot / vpp
      → IsShown file (k, page)
      → IsShown (write_vector vpp dim slot vec file) (k, page)
  write_vector-IsShown k zero_page ne h = tt
  write_vector-IsShown k (mapped bytes) ne h = λ i lt.
      h i lt
      ∙ sym (
          write_vector_elsewhere vpp dim pos fits slot (k * page_size + i) vec file l
            (apart k (slot / vpp) i ne lt))
    where
      apart :
          (k p i : ℕ)
          → k ≢ p
          → i < page_size
          → (k * page_size + i < p * page_size) ⊎ (p * page_size + page_size ≤ k * page_size + i)
      apart k p i ne lt = elim (Bool-cases (ltb k p)) [
        | inl e ↦ let up : k < p = ground arith in inl (omega arith)
        | inr e ↦ let down : p < k = ground arith in inr (omega arith)
      ]

-- A store that holds the vectors `vs`, fewer than 2^32, gives a vector of its dimension that is
-- pushed the slot behind them, and then holds them and this one.
pub push-IsStore :
    (s : PagedStore) (vs : List (List Float)) (vec : List Float)
    → IsStore s vs
    → length vs < 2 ^ 32
    → IsVector s.dim vec
    → ((push s vec).0 ≡ length vs) × IsStore (push s vec).1 (vs ++ vec ∷ [])
unfolding push
push-IsStore s vs vec h few v =
    let slot : s.n_vectors % 2 ^ 32 ≡ length vs = omega (arith, h.count) in
    let file = write_vector s.vectors_per_page s.dim (length vs) vec s.file in
    let id = length vs / s.vectors_per_page in
    let grown : PagedStore = record s { n_vectors = s.n_vectors + 1; file = file } in
    let after = invalidate id grown in
    (
      slot,
      rw slot (
          subst (λ (x : PagedStore). IsStore x (vs ++ vec ∷ [])) (sym (invalidate_only id grown))
            (record {
              cache =
                  subst IsCache (invalidate_only id grown)
                    (rw slot at (get-IsCache s 0 vec h.cache).1);
              shown =
                  invalidate-All (IsShown s.file) (IsShown file) id
                    (write_vector-IsShown s.vectors_per_page s.dim (length vs) vec s.file
                      h.some_slot h.page_fits v.0)
                    grown (h.cache.once id) h.shown;
              count = omega (arith, h.count, length-append vs (vec ∷ []));
              some_slot = h.some_slot;
              page_fits = h.page_fits;
              vectors = λ j lt. elim (ℕ_discrete j (length vs)) [
                | yes e ↦ rw (e, get_or-append_last vs vec) v
                | no o ↦
                    let old : j < length vs = omega (arith, length-append vs (vec ∷ [])) in
                    rw (get_or-append_lt vs vec j old) (h.vectors j old)
              ];
              bytes = λ j lt. elim (ℕ_discrete j (length vs)) [
                | yes e ↦
                    rw (e, get_or-append_last vs vec)
                      (write_vector_self s.vectors_per_page s.dim h.some_slot h.page_fits
                        (length vs) vec s.file v.0)
                | no o ↦
                    let old : j < length vs = omega (arith, length-append vs (vec ∷ [])) in
                    rw (get_or-append_lt vs vec j old) (
                      write_vector_other s.vectors_per_page s.dim h.some_slot h.page_fits
                        (length vs) j vec (get_or vs j []) s.file v.0 o (h.bytes j old))
              ];
            })),
    )

pub fetch_only :
    (s : PagedStore) (id : ℕ)
    → (fetch s id).1
      ≡ record s { lru_order = (fetch s id).1.lru_order; page_cache = (fetch s id).1.page_cache }
unfolding fetch load_page evict_lru
fetch_only s id = elim (Option-cases (find_page id s.page_cache)) [
  | inr (page, e) ↦ rw (fetch, e) refl
  | inl e ↦
      rw (fetch, e)
        (elim (Bool-cases (leb s.max_cached_pages (length s.page_cache))) [
          | inr f ↦ rw (load_page, f) refl
          | inl f ↦
              rw (load_page, f)
                (elim (List-cases s.lru_order) [
                  | inl o ↦ rw (evict_lru, o) refl
                  | inr (first, rest, o) ↦ rw (evict_lru, o) refl
                ])
        ])
]

pub fetch-All :
    (P : ℕ × Page → Type 0) (s : PagedStore) (id : ℕ)
    → P (id, map_page s.file id)
    → All P s.page_cache
    → All P (fetch s id).1.page_cache
unfolding fetch
fetch-All P s id p a = elim (Option-cases (find_page id s.page_cache)) [
  | inl e ↦ rw (fetch, e) (load_page-All P s id p a)
  | inr (page, e) ↦ rw (fetch, e) a
]

-- A read changes only the cache: the store holds the vectors that it held.
pub get_kept :
    (s : PagedStore) (vs : List (List Float)) (slot : ℕ) → IsStore s vs → IsStore (get s slot).1 vs
unfolding get
get_kept s vs slot h =
    let id = slot / s.vectors_per_page in
    subst (λ (x : PagedStore). IsStore x vs) (sym (fetch_only s id))
      (record {
        cache = subst IsCache (fetch_only s id) (fetch-IsCache s id h.cache);
        shown = fetch-All (IsShown s.file) s id (map_page-IsShown s.file id) h.shown;
        count = h.count;
        some_slot = h.some_slot;
        page_fits = h.page_fits;
        vectors = h.vectors;
        bytes = h.bytes;
      })

-- A store that opens on an empty file holds no vector.
pub open_store-IsStore :
    (dim cache_bytes : ℕ) (s : PagedStore)
    → open_store dim cache_bytes true [] ≡ opened s
    → IsStore s []
unfolding open_store uses entries
open_store-IsStore dim cache_bytes s h = elim (Bool-cases (4088 / (dim * 4) == 0)) [
  | inl e ↦ absurd (ground arith)
  | inr e ↦
      subst (λ (x : PagedStore). IsStore x []) (un_opened (rw e at h))
        (record {
          cache = record {
            once = λ id. omega arith;
            ordered = λ id. refl;
            sizes = refl;
            budget = omega arith;
            room = omega arith;
          };
          shown = tt;
          count = omega arith;
          some_slot = ground arith;
          page_fits = omega (arith, div-mul-le_self 4088 (dim * 4));
          vectors = λ slot l. absurd (omega arith);
          bytes = λ slot l. absurd (omega arith);
        })
]

pub open_store-dim :
    (dim cache_bytes : ℕ) (s : PagedStore)
    → open_store dim cache_bytes true [] ≡ opened s
    → s.dim ≡ dim
unfolding open_store
open_store-dim dim cache_bytes s h = elim (Bool-cases (4088 / (dim * 4) == 0)) [
  | inl e ↦ absurd (ground arith)
  | inr e ↦ ap (λ (x : PagedStore). x.dim) (sym (un_opened (rw e at h)))
]
