-- ===== src/Hnsw/Threads.antt =====
-- src/hnsw.cpp: `insert`, `delete_vector` and `search` of several threads over one index. A step is
-- one section under `index_mutex_`, or one access to what threads share outside of it; between two
-- steps of a thread the others may make any number of theirs. Reads of `num_vectors_` see a node
-- once its section is done; `cfg_` does not change.
pub mod Bounds
pub mod Layer
pub mod Next
pub mod Steps
pub mod Room
pub mod Ends
pub mod Alone
pub mod Calls
use neuraldatabase.Prelude.{
  ℕ, zero, suc, ◌+◌, ◌-◌, Option, none, some, List, [], ◌∷◌, true, false, ite, ℕ_discrete, min, max,
  leb, ◌==◌, if◌then◌else◌, length, get_or,
}
use neuraldatabase.Float.{Float}
use neuraldatabase.Kernels.{Arith}
use neuraldatabase.Ranking.{Scored}
use neuraldatabase.Hnsw.State.{HnswConfig, HnswIndex, links, set_links}
use neuraldatabase.Hnsw.Tombstones.{delete_vector}
use neuraldatabase.Hnsw.Layer.{
  Scratch, next_tag, visited, Beam, consider, closed, start, drain, node_similarity,
}
use neuraldatabase.Hnsw.Insert.{select_neighbours, append_node, closest, connect_back, raise_entry}
use neuraldatabase.Hnsw.Query.{first_live, collect_live}

-- Where a call of `search_layer_` stands, with the thread's buffer.
pub data Phase : Type 0 where
  entering : Scratch → Phase  -- before `num_vectors_` is loaded
  tagged : Scratch → Phase  -- before the entry point is scored
  scanning : Beam → List ℕ → Phase  -- with the neighbours left of the candidate popped last

-- What a step of it leads to. `overrun` is an access past the end of `visited_buf`.
pub data Progress : Type 0 where
  running : Phase → Progress
  returned : List (Scored ℕ) → Scratch → Progress
  overrun : Progress

-- What a descent through the layers is for: the rest of an insertion of node `q`, or of a search.
pub data Purpose : Type 0 where
  to_link : (q top : ℕ) → Purpose
  to_answer : (k : ℕ) → Purpose

-- The calls of `search_layer_`, with the locals of the caller.
pub data Caller : Type 0 where
  descending : Purpose → List Float → (level n ep : ℕ) → Caller
  choosing : List Float → (q level lc ep : ℕ) → Caller
  bottom : List Float → (k ep : ℕ) → Caller

-- Where a thread stands. The last three are ends.
pub data Task : Type 0 where
  appending : (id : ℕ) → List Float → List ℕ → (level : ℕ) → Scratch → Task
  reading_entry : List Float → (q level : ℕ) → Scratch → Task
  in_layer : Caller → Phase → Task
  storing : List Float → (q level lc : ℕ) → List ℕ → (ep : ℕ) → Scratch → Task
  linking : List Float → (q level lc : ℕ) → List ℕ → (ep : ℕ) → Scratch → Task
  raising : (q level : ℕ) → Scratch → Task
  deleting : (id : ℕ) → Scratch → Task
  querying : List Float → (k : ℕ) → Scratch → Task
  reading_live : List Float → (k nv : ℕ) → Scratch → Task
  collecting : (k : ℕ) → List (Scored ℕ) → Scratch → Task
  finished : Scratch → Task
  answered : List (Scored ℕ) → Scratch → Task
  out_of_bounds : Task

abbrev pub query_of : Caller → List Float
query_of (descending _ query _ _ _) = query
query_of (choosing query _ _ _ _) = query
query_of (bottom query _ _) = query

abbrev pub entry_of : Caller → ℕ
entry_of (descending _ _ _ _ ep) = ep
entry_of (choosing _ _ _ _ ep) = ep
entry_of (bottom _ _ ep) = ep

abbrev pub layer_of : Caller → ℕ
layer_of (descending _ _ level n _) = level + suc n
layer_of (choosing _ _ _ lc _) = lc
layer_of (bottom _ _ _) = 0

abbrev pub ef_of : HnswConfig → Caller → ℕ
ef_of cfg (descending _ _ _ _ _) = 1
ef_of cfg (choosing _ _ _ _ _) = max cfg.ef_construction cfg.m
ef_of cfg (bottom _ _ _) = cfg.ef_search

-- the head of `for (int lc = min(level, cur_max_layer); lc >= 0; --lc)`, `n` layers to go
unfoldable pub connect_from : List Float → (q level n ep : ℕ) → Scratch → Task
connect_from query q level zero ep s = raising q level s
connect_from query q level (suc lc) ep s = in_layer (choosing query q level lc ep) (entering s)

-- the head of the descending loops, `n` layers to go
unfoldable pub descend_from : Purpose → List Float → (level n ep : ℕ) → Scratch → Task
descend_from p query level (suc n) ep s = in_layer (descending p query level n ep) (entering s)
descend_from (to_link q top) query level zero ep s =
    connect_from query q level (min level top + 1) ep s
descend_from (to_answer k) query level zero ep s = in_layer (bottom query k ep) (entering s)

-- what the caller does with the candidates before it takes the lock again
unfoldable pub resume : HnswConfig → Caller → List (Scored ℕ) → Scratch → Task
resume cfg (descending p query level n ep) xs s = descend_from p query level n (closest xs ep) s
resume cfg (choosing query q level lc ep) xs s =
    storing query q level lc (select_neighbours xs cfg.m) (closest xs ep) s
resume cfg (bottom query k ep) xs s = collecting k xs s

unfoldable pub carry_on : HnswConfig → Caller → Progress → Task
carry_on cfg c (running phase) = in_layer c phase
carry_on cfg c (returned xs s) = resume cfg c xs s
carry_on cfg c overrun = out_of_bounds

-- the entry point, or the first live node of the first `nv` where that is deleted
unfoldable pub live_among : HnswIndex → (nv : ℕ) → Option ℕ
live_among index nv =
    if get_or index.tombstone index.entry_point false
    then first_live index.tombstone 0 nv
    else some index.entry_point

-- the rest of a search, which has no answers where no node is live
unfoldable pub begin_search : List Float → (k top : ℕ) → Scratch → Option ℕ → Task
begin_search query k top s none = answered [] s
begin_search query k top s (some ep) = descend_from (to_answer k) query 0 top ep s

module _ (ops : Arith Float) where
  -- One step of `search_layer_`, on the index as it is now.
  unfoldable pub advance_layer :
      HnswIndex → (query : List Float) → (entry ef layer : ℕ) → Phase → Progress
  advance_layer index query entry ef layer (entering s) =
      running (tagged (next_tag index.num_vectors s))
  advance_layer index query entry ef layer (tagged s) =
      if leb (length s.visited_buf) entry
      then overrun
      else running (
          scanning
            (start (node_similarity ops index query) (λ n. links index.graph n layer) ef entry s)
            [])
  advance_layer index query entry ef layer (scanning b []) = elim b.cands [
    | [] ↦ returned (drain b.results) b.scratch
    | c ∷ cands ↦
        elim (closed (node_similarity ops index query) (λ n. links index.graph n layer) ef c
          b.results) [
            | true ↦ returned (drain b.results) b.scratch
            | false ↦ running (scanning (record b { cands = cands }) (links index.graph c.1 layer))
          ]
  ]
  advance_layer index query entry ef layer (scanning b (nb ∷ nbs)) =
      if leb (length b.scratch.visited_buf) nb
      then overrun
      else running (
          scanning
            (if visited b.scratch nb
              then b
              else consider (node_similarity ops index query) (λ n. links index.graph n layer) ef b
                  nb)
            nbs)

  -- One step of a thread. A thread at its end makes none.
  unfoldable pub advance : HnswIndex → Task → HnswIndex × Task
  advance index (appending id vec metadata level s) =
      let q = index.num_vectors in
      let grown = append_node index id vec metadata level in
      if q == 0
      then (record grown { max_layer = level; entry_point = 0 }, finished s)
      else (grown, reading_entry vec q level s)
  advance index (reading_entry vec q level s) = (
    index,
    descend_from (to_link q index.max_layer) vec level (index.max_layer - level) index.entry_point
        s,
  )
  advance index (in_layer c phase) = (
    index,
    carry_on index.cfg c
        (advance_layer index (query_of c) (entry_of c) (ef_of index.cfg c) (layer_of c) phase),
  )
  advance index (storing query q level lc nbs ep s) =
      (record index { graph = set_links index.graph q lc nbs }, linking query q level lc nbs ep s)
  advance index (linking query q level lc [] ep s) = (index, connect_from query q level lc ep s)
  advance index (linking query q level lc (nb ∷ nbs) ep s) =
      (connect_back ops index q lc nb, linking query q level lc nbs ep s)
  advance index (raising q level s) = (raise_entry index q level, finished s)
  advance index (deleting id s) = (delete_vector index id, finished s)
  advance index (querying query k s) = (
    index,
    if index.num_vectors == 0 then answered [] s else reading_live query k index.num_vectors s,
  )
  advance index (reading_live query k nv s) =
      (index, begin_search query k index.max_layer s (live_among index nv))
  advance index (collecting k xs s) = (index, answered (collect_live index k 0 xs) s)
  advance index (finished s) = (index, finished s)
  advance index (answered xs s) = (index, answered xs s)
  advance index out_of_bounds = (index, out_of_bounds)

-- The index, and what each thread is at.
pub record System : Type 0 where
  pub index : HnswIndex
  pub task : ℕ → Task

abbrev pub update : (ℕ → Task) → ℕ → Task → ℕ → Task
update f i t j = ite (ℕ_discrete i j) t (f j)

module _ (ops : Arith Float) where
  -- thread `i` makes a step
  abbrev pub step : System → ℕ → System
  step s i =
      let (index, t) = advance ops s.index (s.task i) in
      record { index = index; task = update s.task i t }

  -- The states that the threads can bring about from `s`, in any order.
  pub data Reach (s : System) : System → Type 0 where
    now : Reach s s
    later : (i : ℕ) {t : System} → Reach s t → Reach s (step t i)
