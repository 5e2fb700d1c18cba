-- ===== src/Hnsw/Threads/Bounds.antt =====
-- src/hnsw.cpp: the nodes that a thread holds on to are nodes of the index.
use neuraldatabase.Prelude.{ℕ, ◌≤◌, ◌<◌, List, arith, All, All-imp, length}
use neuraldatabase.Ranking.{Scored}
use neuraldatabase.Hnsw.Layer.{Beam}
use neuraldatabase.Hnsw.Layer.Tags.{IsScratch}
use neuraldatabase.Hnsw.Threads.{
  Phase, entering, tagged, scanning, Purpose, to_link, to_answer, Caller, descending, choosing,
  bottom, Task, appending, reading_entry, in_layer, storing, linking, raising, deleting, querying,
  reading_live, collecting, finished, answered, out_of_bounds, entry_of,
}

-- The queues hold nodes of the first `nv`.
pub record IsInside (nv : ℕ) (b : Beam) : Type 0 where
  pub valid : IsScratch b.scratch
  pub pending : All (λ x. x.1 < nv) b.cands
  pub found : All (λ x. x.1 < nv) b.results

abbrev pub IsPhase : (nv entry : ℕ) → Phase → Type 0
IsPhase nv entry (entering s) = IsScratch s
IsPhase nv entry (tagged s) = IsScratch s × (entry < length s.visited_buf)
IsPhase nv entry (scanning b nbs) = IsInside nv b × All (λ n. n < nv) nbs

abbrev pub IsPurpose : (nv : ℕ) → Purpose → Type 0
IsPurpose nv (to_link q top) = q < nv
IsPurpose nv (to_answer k) = Unit

abbrev pub IsCaller : (nv : ℕ) → Caller → Type 0
IsCaller nv (descending p query level n ep) = IsPurpose nv p × (ep < nv)
IsCaller nv (choosing query q level lc ep) = (q < nv) × (ep < nv)
IsCaller nv (bottom query k ep) = ep < nv

-- The locals of a thread, for an index of `nv` nodes with this dimension and M.
abbrev pub IsTask : (dim m nv : ℕ) → Task → Type 0
IsTask dim m nv (appending id vec metadata level s) = IsScratch s × (dim ≤ length vec)
IsTask dim m nv (reading_entry vec q level s) = IsScratch s × (q < nv)
IsTask dim m nv (in_layer c phase) = IsCaller nv c × IsPhase nv (entry_of c) phase
IsTask dim m nv (storing query q level lc nbs ep s) =
    IsScratch s × (q < nv) × (ep < nv) × All (λ n. n < nv) nbs × (length nbs ≤ m)
IsTask dim m nv (linking query q level lc nbs ep s) =
    IsScratch s × (q < nv) × (ep < nv) × All (λ n. n < nv) nbs
IsTask dim m nv (raising q level s) = IsScratch s × (q < nv)
IsTask dim m nv (deleting id s) = IsScratch s
IsTask dim m nv (querying query k s) = IsScratch s
IsTask dim m nv (reading_live query k seen s) = IsScratch s × (0 < seen) × (seen ≤ nv)
IsTask dim m nv (collecting k xs s) = IsScratch s × All (λ x. x.1 < nv) xs
IsTask dim m nv (finished s) = IsScratch s
IsTask dim m nv (answered xs s) = IsScratch s
IsTask dim m nv out_of_bounds = Unit

All-lt : (nv nv' : ℕ) (xs : List ℕ) → nv ≤ nv' → All (λ n. n < nv) xs → All (λ n. n < nv') xs
All-lt nv nv' xs h = All-imp (λ n. n < nv) (λ n. n < nv') (λ n k. omega arith) xs

All-lt_scored :
    (nv nv' : ℕ) (xs : List (Scored ℕ))
    → nv ≤ nv'
    → All (λ x. x.1 < nv) xs
    → All (λ x. x.1 < nv') xs
All-lt_scored nv nv' xs h = All-imp (λ x. x.1 < nv) (λ x. x.1 < nv') (λ x k. omega arith) xs

IsPhase-grow : (nv nv' entry : ℕ) (p : Phase) → nv ≤ nv' → IsPhase nv entry p → IsPhase nv' entry p
IsPhase-grow nv nv' entry (entering s) h k = k
IsPhase-grow nv nv' entry (tagged s) h k = k
IsPhase-grow nv nv' entry (scanning b nbs) h k = (
  record {
    valid = (k.0).valid;
    pending = All-lt_scored nv nv' b.cands h (k.0).pending;
    found = All-lt_scored nv nv' b.results h (k.0).found;
  },
  All-lt nv nv' nbs h k.1,
)

IsCaller-grow : (nv nv' : ℕ) (c : Caller) → nv ≤ nv' → IsCaller nv c → IsCaller nv' c
IsCaller-grow nv nv' (descending (to_link q top) query level n ep) h k = omega arith
IsCaller-grow nv nv' (descending (to_answer k') query level n ep) h k = (tt, omega arith)
IsCaller-grow nv nv' (choosing query q level lc ep) h k = omega arith
IsCaller-grow nv nv' (bottom query k' ep) h k = omega arith

-- What a thread holds stays valid while others append nodes.
pub IsTask-grow : (dim m nv nv' : ℕ) (t : Task) → nv ≤ nv' → IsTask dim m nv t → IsTask dim m nv' t
IsTask-grow dim m nv nv' (appending id vec metadata level s) h k = k
IsTask-grow dim m nv nv' (reading_entry vec q level s) h k = (k.0, omega arith)
IsTask-grow dim m nv nv' (in_layer c phase) h k =
    (IsCaller-grow nv nv' c h k.0, IsPhase-grow nv nv' (entry_of c) phase h k.1)
IsTask-grow dim m nv nv' (storing query q level lc nbs ep s) h k =
    (k.0, omega arith, omega arith, All-lt nv nv' nbs h k.3, k.4)
IsTask-grow dim m nv nv' (linking query q level lc nbs ep s) h k =
    (k.0, omega arith, omega arith, All-lt nv nv' nbs h k.3)
IsTask-grow dim m nv nv' (raising q level s) h k = (k.0, omega arith)
IsTask-grow dim m nv nv' (deleting id s) h k = k
IsTask-grow dim m nv nv' (querying query k' s) h k = k
IsTask-grow dim m nv nv' (reading_live query k' seen s) h k = (k.0, k.1, omega arith)
IsTask-grow dim m nv nv' (collecting k' xs s) h k = (k.0, All-lt_scored nv nv' xs h k.1)
IsTask-grow dim m nv nv' (finished s) h k = k
IsTask-grow dim m nv nv' (answered xs s) h k = k
IsTask-grow dim m nv nv' out_of_bounds h k = tt
