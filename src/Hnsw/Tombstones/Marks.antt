-- ===== src/Hnsw/Tombstones/Marks.antt =====
-- src/hnsw.cpp: what `delete_vector` changes, as `is_deleted` and `live_size` show it.
use neuraldatabase.Prelude.{
  ℕ, zero, suc, ◌+◌, ◌<◌, ◌≤◌, ◌≡◌, ◌≢◌, refl, ◌∙◌, ℕ_discrete, inl, inr, Bool, true, false, not,
  ◌&&◌, Option, none, some, List, [], ◌∷◌, arith, Bool-cases, Option-cases, length, length-set,
  get_or, set, keep, get_or-set_self, get_or-set_ne, ◌==◌, if◌then◌else◌,
}
use neuraldatabase.Hnsw.State.{HnswIndex}
use neuraldatabase.Hnsw.Invariant.{IsIndex}
use neuraldatabase.Hnsw.Tombstones.{find_from, delete_vector, is_deleted, live_size}

-- what the loops over the ids find
pub find_from-found :
    (id_map : List ℕ) (id i n j : ℕ)
    → find_from id_map id i n ≡ some j
    → (j < i + n) × (get_or id_map j 0 ≡ id)
unfolding find_from
find_from-found id_map id i zero j h = absurd (ground arith)
find_from-found id_map id i (suc n) j h = ground (arith, find_from-found id_map id (i + 1) n j)

-- The node that stands for an external id.
unfoldable pub node_of : HnswIndex → ℕ → Option ℕ
node_of index id = find_from index.id_map id 0 index.num_vectors

-- One of the ids is `id`.
abbrev pub is_among : ℕ → List ℕ → Bool
is_among id [] = false
is_among id (k ∷ ks) = if k == id then true else is_among id ks

-- The id was inserted before, and its vector may be deleted.
abbrev pub is_known : HnswIndex → ℕ → Bool
is_known index id = is_among id index.id_map

is_among-get_or :
    (ids : List ℕ) (id j : ℕ) → j < length ids → get_or ids j 0 ≡ id → is_among id ids ≡ true
is_among-get_or [] id j lt e = absurd (omega arith)
is_among-get_or (k ∷ ks) id zero lt e = ground arith
is_among-get_or (k ∷ ks) id (suc j) lt e = ground (arith, is_among-get_or ks id j)

-- Where the loop finds none, there is none.
pub find_from-absent :
    (id_map : List ℕ) (id i n j : ℕ)
    → find_from id_map id i n ≡ none
    → i ≤ j
    → j < i + n
    → get_or id_map j 0 ≢ id
unfolding find_from
find_from-absent id_map id i zero j h le lt = absurd (omega arith)
find_from-absent id_map id i (suc n) j h le lt = elim (Bool-cases (get_or id_map i 0 == id)) [
  | inl t ↦ absurd (ground (arith, rw t at h))
  | inr t ↦ elim (ℕ_discrete i j) [
    | yes e ↦ rw (← e) (λ p. ground arith)
    | no e ↦ find_from-absent id_map id (i + 1) n j (rw t at h) (omega arith) (omega arith)
  ]
]

is_among-absent :
    (ids : List ℕ) (id : ℕ)
    → ((j : ℕ) → j < length ids → get_or ids j 0 ≢ id)
    → is_among id ids ≡ false
is_among-absent [] id h = refl
is_among-absent (k ∷ ks) id h =
    let first : k ≢ id = h 0 (omega arith) in
    let rest = is_among-absent ks id (λ j lt. h (suc j) (omega arith)) in ground (arith, rest)

node_of-lt :
    (index : HnswIndex) (id j : ℕ)
    → node_of index id ≡ some j
    → (j < index.num_vectors) × (get_or index.id_map j 0 ≡ id)
unfolding node_of
node_of-lt index id j h =
    let (lt, e) = find_from-found index.id_map id 0 index.num_vectors j h in (omega arith, e)

module _ (index : HnswIndex) (id : ℕ) (h : IsIndex index) where
  is_known-none : node_of index id ≡ none → is_known index id ≡ false
  unfolding node_of
  is_known-none e = is_among-absent index.id_map id (λ j lt.
      find_from-absent index.id_map id 0 index.num_vectors j e (omega arith) (omega (arith, h.ids)))

  is_known-some : (j : ℕ) → node_of index id ≡ some j → is_known index id ≡ true
  is_known-some j e =
      let (lt, same) = node_of-lt index id j e in
      is_among-get_or index.id_map id j (omega (arith, h.ids)) same

-- In an index in order, after a deletion the id is deleted exactly if it is among the ids of the
-- nodes, and every other id is deleted or not as before.
pub is_deleted-delete_vector :
    (index : HnswIndex) (id j : ℕ)
    → IsIndex index
    → is_deleted (delete_vector index id) j
      ≡ (if j == id then is_known index id else is_deleted index j)
unfolding is_deleted delete_vector node_of
is_deleted-delete_vector index id j h = elim (Option-cases (node_of index id)) [
  | inl unknown ↦ ground (arith, is_known-none index id h unknown)
  | inr (a, known) ↦
      let (lt, e) = node_of-lt index id a known in
      let k = is_known-some index id h a known in
      elim (Option-cases (node_of index j)) [
        | inl unknown ↦ ground arith
        | inr (b, other) ↦
            let (lt', e') = node_of-lt index j b other in
            elim (ℕ_discrete a b) [
              | yes p ↦
                  ground
                    (arith, get_or-set_self index.tombstone a true false (omega (arith, h.marks)))
              | no p ↦ ground (arith, get_or-set_ne index.tombstone a b true false p)
            ]
      ]
]

count_set :
    (marks : List Bool) (i : ℕ)
    → i < length marks
    → length (keep not (set marks i true)) + (if get_or marks i false then 0 else 1)
      ≡ length (keep not marks)
count_set [] i h = elim h [ ]
count_set (true ∷ marks) zero h = omega arith
count_set (false ∷ marks) zero h = omega arith
count_set (true ∷ marks) (suc i) h = count_set marks i (omega arith)
count_set (false ∷ marks) (suc i) h = omega (arith, count_set marks i (omega arith))

-- In an index in order one vector less is live after a deletion, unless the id is not among the ids
-- of the nodes or was deleted before.
pub live_size-delete_vector :
    (index : HnswIndex) (id : ℕ)
    → IsIndex index
    → live_size (delete_vector index id)
        + (if is_known index id && not (is_deleted index id) then 1 else 0)
      ≡ live_size index
unfolding live_size delete_vector is_deleted node_of
live_size-delete_vector index id h = elim (Option-cases (node_of index id)) [
  | inl unknown ↦ ground (arith, is_known-none index id h unknown)
  | inr (a, known) ↦
      let (lt, e) = node_of-lt index id a known in
      let k = is_known-some index id h a known in
      ground (arith, count_set index.tombstone a (omega (arith, h.marks)))
]

-- An index in order stays in order when an id is deleted, known or not.
pub delete_vector-IsIndex :
    (index : HnswIndex) (id : ℕ) → IsIndex index → IsIndex (delete_vector index id)
unfolding delete_vector
delete_vector-IsIndex index id h =
    elim (Option-cases (find_from index.id_map id 0 index.num_vectors)) [
      | inl e ↦ rw (e, delete_vector) h
      | inr (a, e) ↦
          rw (e, delete_vector)
            (record {
              ids = h.ids;
              texts = h.texts;
              marks = length-set index.tombstone a true ∙ h.marks;
              floats = h.floats;
              graph = h.graph;
              entry = h.entry;
            })
    ]
