-- ===== src/Tests/Threads.antt =====
-- Runs of src/hnsw.cpp with several threads.
use neuraldatabase.Prelude.{
  ℕ, zero, suc, ◌≤◌, ◌≡◌, ◌≢◌, refl, inr, true, List, [], ◌∷◌, ◌++◌, arith, foldl, none, true,
  ℕ_discrete,
}
use neuraldatabase.Hnsw.State.{HnswIndex, links}
use neuraldatabase.Hnsw.Layer.{Scratch}
use neuraldatabase.Hnsw.Insert.{insert}
use neuraldatabase.Hnsw.Query.{search}
use neuraldatabase.Hnsw.Threads.{
  Task, appending, querying, finished, answered, out_of_bounds, connect_from, descend_from, resume,
  carry_on, live_among, begin_search, advance_layer, advance, System, step, Reach, now, later,
}
use neuraldatabase.Hnsw.Threads.Bounds.{IsTask}
use neuraldatabase.Hnsw.Threads.Steps.{IsSystem, Reach-IsSystem}
use neuraldatabase.Hnsw.Threads.Room.{HasRoom, Reach-in_bounds}
use neuraldatabase.Hnsw.Threads.Ends.{HasStopped, follow, follow-stops}
use neuraldatabase.Hnsw.Threads.Alone.{Leads}
use neuraldatabase.Hnsw.Threads.Calls.{insert-alone, search-alone}
use neuraldatabase.Tests.Data.{toy, row, config, no_scratch}
use neuraldatabase.Tests.Hnsw.{program, row-IsIndex, no_scratch-IsScratch}

program' : Unit {0}
unfolding program connect_from descend_from resume carry_on live_among begin_search advance_layer
    advance ℕ_discrete
program' = tt

-- The first thread inserts, the second searches, the others are done.
tasks : ℕ → Scratch → Task
tasks zero s = appending 80 (8 ∷ []) [] 0 no_scratch
tasks (suc zero) s = querying (1 ∷ []) 2 s
tasks (suc (suc i)) s = finished no_scratch

two_threads : Scratch → System
unfolding tasks
two_threads s = record { index = row; task = λ i. tasks i s }

abbrev run : System → List ℕ → System
run s is = foldl (step toy) s is

abbrev repeat : ℕ → ℕ → List ℕ
repeat zero i = []
repeat (suc n) i = i ∷ repeat n i

-- A buffer for three nodes, when a fourth is linked while the search runs.
full : Scratch
full = record { visited_buf = 0 ∷ 0 ∷ 0 ∷ []; visit_tag = 0 }

leaves_buffer :
    (run (two_threads full) (repeat 3 1 ++ repeat 40 0 ++ repeat 40 1)).task 1 ≡ out_of_bounds
unfolding program' two_threads full
leaves_buffer = refl

tasks-IsTask : (i : ℕ) → IsTask 1 2 3 (tasks i no_scratch)
unfolding tasks
tasks-IsTask zero = (no_scratch-IsScratch, omega arith)
tasks-IsTask (suc zero) = no_scratch-IsScratch
tasks-IsTask (suc (suc i)) = no_scratch-IsScratch

two_threads-IsSystem : IsSystem (two_threads no_scratch)
unfolding two_threads
two_threads-IsSystem = record { index = row-IsIndex; tasks = tasks-IsTask }

tasks-HasRoom : (i : ℕ) → HasRoom 3 4 (tasks i no_scratch)
unfolding tasks
tasks-HasRoom zero = inr (omega arith)
tasks-HasRoom (suc zero) = inr (omega arith)
tasks-HasRoom (suc (suc i)) = inr (omega arith)

two_threads-HasRoom : (i : ℕ) → HasRoom 3 4 ((two_threads no_scratch).task i)
unfolding two_threads
two_threads-HasRoom = tasks-HasRoom

-- the search starts, then the insertion appends its node
both_moved : Reach toy (two_threads no_scratch) (run (two_threads no_scratch) (1 ∷ 0 ∷ []))
both_moved = later 0 (later 1 now)

Reach-IsSystem_example :
    IsSystem (run (two_threads no_scratch) (1 ∷ 0 ∷ []))
    × ((two_threads no_scratch).index.num_vectors
        ≤ (run (two_threads no_scratch) (1 ∷ 0 ∷ [])).index.num_vectors)
Reach-IsSystem_example = Reach-IsSystem toy both_moved two_threads-IsSystem

moved-fits : (run (two_threads no_scratch) (1 ∷ 0 ∷ [])).index.num_vectors ≤ 4
unfolding program' two_threads tasks
moved-fits = omega arith

Reach-in_bounds_example : (run (two_threads no_scratch) (1 ∷ 0 ∷ [])).task 1 ≢ out_of_bounds
unfolding two_threads
Reach-in_bounds_example =
    Reach-in_bounds toy 4 two_threads-IsSystem (omega arith) two_threads-HasRoom both_moved
      moved-fits 1

follow-stops_example :
    (n : ℕ) × HasStopped (follow toy (λ i. row) n (querying (1 ∷ []) 2 no_scratch))
follow-stops_example = follow-stops toy (λ i. row) (querying (1 ∷ []) 2 no_scratch)

insert-alone_example :
    Leads toy
      (row, appending 80 (8 ∷ []) [] 1 no_scratch)
      (
        (insert toy row 80 (8 ∷ []) [] 1 no_scratch).0,
        finished (insert toy row 80 (8 ∷ []) [] 1 no_scratch).1,
      )
insert-alone_example =
    insert-alone toy row 80 (8 ∷ []) [] 1 no_scratch (omega arith) no_scratch-IsScratch row-IsIndex

search-alone_example :
    Leads toy
      (row, querying (1 ∷ []) 2 no_scratch)
      (
        row,
        answered (search toy row (1 ∷ []) 2 no_scratch).0 (search toy row (1 ∷ []) 2 no_scratch).1,
      )
search-alone_example =
    search-alone toy row (1 ∷ []) 2 no_scratch (omega arith) no_scratch-IsScratch row-IsIndex

-- One node, on layers 0 and 1.
lone : HnswIndex
lone = record {
  dim = 1;
  cfg = config;
  num_vectors = 1;
  max_layer = 1;
  entry_point = 0;
  graph = ([] ∷ [] ∷ []) ∷ [];
  raw_vectors = 5 ∷ [];
  id_map = 50 ∷ [];
  metadata = [] ∷ [];
  tombstone = true ∷ [];
  vec_accessor = none;
}

inserters : ℕ → Task
inserters zero = appending 60 (6 ∷ []) [] 1 no_scratch
inserters (suc zero) = appending 70 (7 ∷ []) [] 1 no_scratch
inserters (suc (suc i)) = finished no_scratch

two_inserts : System
unfolding lone inserters
two_inserts = record { index = lone; task = inserters }

-- The second insertion links its node 2 from node 1 while the first is about to store the links of
-- node 1 on layer 0.
linked : links (run two_inserts (repeat 13 0 ++ repeat 60 1)).index.graph 1 0 ≡ 2 ∷ []
unfolding program' two_inserts links
linked = refl

link_lost :
    links (run two_inserts (repeat 13 0 ++ repeat 60 1 ++ repeat 60 0)).index.graph 1 0 ≡ 0 ∷ []
unfolding program' two_inserts links
link_lost = refl
