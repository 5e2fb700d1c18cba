-- ===== src/Hnsw/Threads/Steps.antt =====
-- src/hnsw.cpp: every step of every thread keeps the shared index in order, and what the threads
-- hold within it.
use neuraldatabase.Prelude.{
  ℕ, ◌≤◌, ◌<◌, ◌≡◌, refl, ap, inl, inr, [], ◌∷◌, arith, Bool-cases, Option-cases, ℕ_discrete, some,
  ◌==◌, if_pos, if_neg,
}
use neuraldatabase.Float.{Float}
use neuraldatabase.Kernels.{Arith}
use neuraldatabase.Hnsw.State.{HnswConfig, HnswIndex, set_links}
use neuraldatabase.Hnsw.Invariant.{IsIndex}
use neuraldatabase.Hnsw.Insert.{append_node, connect_back}
use neuraldatabase.Hnsw.Insert.Connect.{set_links-IsGraph, connect_back-IsGraph}
use neuraldatabase.Hnsw.Insert.Preserve.{m-le-max_links}
use neuraldatabase.Hnsw.Query.Answer.{first_live-lt}
use neuraldatabase.Hnsw.Threads.{
  to_link, to_answer, Caller, descending, choosing, bottom, Task, appending, reading_entry,
  in_layer, storing, linking, raising, deleting, querying, reading_live, collecting, finished,
  answered, out_of_bounds, entry_of, query_of, ef_of, layer_of, live_among, begin_search,
  advance_layer, advance, System, step, Reach, now, later,
}
use neuraldatabase.Hnsw.Threads.Next.{
  IsNext, same-IsNext, regraph-IsNext, append_node-IsNext, raise_entry-IsNext, delete_vector-IsNext,
}
use neuraldatabase.Hnsw.Threads.Bounds.{IsCaller, IsTask, IsTask-grow}
use neuraldatabase.Hnsw.Threads.Layer.{
  advance_layer-IsProgress, carry_on-IsTask, connect_from-IsTask, descend_from-IsTask,
}

live_among-lt :
    (index : HnswIndex) (nv ep : ℕ)
    → index.entry_point < index.num_vectors
    → nv ≤ index.num_vectors
    → live_among index nv ≡ some ep
    → ep < index.num_vectors
unfolding live_among
live_among-lt index nv ep lt le e = ground (arith, first_live-lt index 0 nv ep)

pub entry_of-lt : (nv : ℕ) (c : Caller) → IsCaller nv c → entry_of c < nv
entry_of-lt nv (descending p query level n ep) h = h.1
entry_of-lt nv (choosing query q level lc ep) h = h.1
entry_of-lt nv (bottom query k ep) h = h

-- The index is in order, and so are the locals of each thread.
pub record IsSystem (s : System) : Type 0 where
  pub index : IsIndex s.index
  pub tasks : (i : ℕ) → IsTask (s.index).dim ((s.index).cfg).m (s.index).num_vectors (s.task i)

module _ (ops : Arith Float) where
  -- What a step of a thread leaves.
  abbrev IsAdvanced : HnswIndex → HnswIndex × Task → Type 0
  IsAdvanced index r = IsNext index r.0 × IsTask index.dim index.cfg.m (r.0).num_vectors r.1

  advance-IsAdvanced :
      (index : HnswIndex) (t : Task)
      → IsIndex index
      → IsTask index.dim index.cfg.m index.num_vectors t
      → IsAdvanced index (advance ops index t)
  unfolding advance append_node connect_back begin_search
  advance-IsAdvanced index (appending id vec metadata level s) h v =
      elim (Bool-cases (index.num_vectors == 0)) [
        | inl e ↦
            rw e (append_node-IsNext index id vec metadata level level 0 v.1 (omega arith) h, v.0)
        | inr e ↦
            let lt = h.entry (ground arith) in
            rw e (
              append_node-IsNext index id vec metadata level index.max_layer index.entry_point v.1
                  (omega arith) h,
              (v.0, omega arith),
            )
      ]
  advance-IsAdvanced index (reading_entry vec q level s) h v = (
    same-IsNext index h,
    descend_from-IsTask _ _ index.num_vectors (to_link q index.max_layer) vec level _ _ s v.1
        (h.entry (omega arith)) v.0,
  )
  advance-IsAdvanced index (in_layer c phase) h v = (
    same-IsNext index h,
    carry_on-IsTask _ _ index.num_vectors index.cfg c
        (advance_layer ops index (query_of c) (entry_of c) (ef_of index.cfg c) (layer_of c) phase)
        refl v.0
        (advance_layer-IsProgress ops index (query_of c) (entry_of c) (ef_of index.cfg c)
          (layer_of c) (h.graph).in_range (entry_of-lt index.num_vectors c v.0) phase v.1),
  )
  advance-IsAdvanced index (storing query q level lc nbs ep s) h v = (
    regraph-IsNext index (set_links index.graph q lc nbs) h (
        set_links-IsGraph index.cfg index.num_vectors index.graph q lc nbs h.graph v.3
          (omega (arith, m-le-max_links index.cfg lc))),
    (v.0, v.1, v.2, v.3),
  )
  advance-IsAdvanced index (linking query q level lc [] ep s) h v = (
    same-IsNext index h,
    connect_from-IsTask _ _ index.num_vectors query q level lc ep s v.1 v.2 v.0,
  )
  advance-IsAdvanced index (linking query q level lc (nb ∷ nbs) ep s) h v = (
    regraph-IsNext index (connect_back ops index q lc nb).graph h
        (connect_back-IsGraph ops index q lc nb v.1 h.graph),
    (v.0, v.1, v.2, v.3.1),
  )
  advance-IsAdvanced index (raising q level s) h v = (raise_entry-IsNext index q level v.1 h, v.0)
  advance-IsAdvanced index (deleting id s) h v = (delete_vector-IsNext index id h, v)
  advance-IsAdvanced index (querying query k s) h v = elim (Bool-cases (index.num_vectors == 0)) [
    | inl e ↦ rw e (same-IsNext index h, v)
    | inr e ↦ rw e (same-IsNext index h, (v, ground arith, omega arith))
  ]
  advance-IsAdvanced index (reading_live query k nv s) h v =
      elim (Option-cases (live_among index nv)) [
        | inl e ↦ rw e (same-IsNext index h, v.0)
        | inr (ep, e) ↦
            let lt = live_among-lt index nv ep (h.entry (omega arith)) v.2 e in
            rw e (
              same-IsNext index h,
              descend_from-IsTask _ _ index.num_vectors (to_answer k) query 0 index.max_layer ep s
                  tt lt v.0,
            )
      ]
  advance-IsAdvanced index (collecting k xs s) h v = (same-IsNext index h, v.0)
  advance-IsAdvanced index (finished s) h v = (same-IsNext index h, v)
  advance-IsAdvanced index (answered xs s) h v = (same-IsNext index h, v)
  advance-IsAdvanced index out_of_bounds h v = (same-IsNext index h, tt)

  -- A step of any thread keeps the index in order and every thread within it.
  pub step-IsSystem :
      (s : System) (i : ℕ)
      → IsSystem s
      → IsSystem (step ops s i) × ((s.index).num_vectors ≤ (step ops s i).index.num_vectors)
  step-IsSystem s i h =
      let (next, task) = advance-IsAdvanced s.index (s.task i) h.index (h.tasks i) in
      let index' = (advance ops s.index (s.task i)).0 in
      let e : (index'.cfg).m ≡ ((s.index).cfg).m = ap (λ (c : HnswConfig). c.m) next.cfg in
      (
        record {
          index = next.valid;
          tasks = λ j.
              rw (next.dim, e)
                (elim (ℕ_discrete i j) [
                  | yes same ↦ rw (if_pos _ same) task
                  | no other ↦
                      rw (if_neg _ other)
                        (IsTask-grow _ _ _ index'.num_vectors (s.task j) next.grows (h.tasks j))
                ]);
        },
        next.grows,
      )

  -- Whatever steps the threads make, in whatever order, the index stays in order, every node that
  -- a thread holds on to is a node of the index, and no node is lost.
  pub Reach-IsSystem :
      {s t : System}
      → Reach ops s t
      → IsSystem s
      → IsSystem t × ((s.index).num_vectors ≤ (t.index).num_vectors)
  Reach-IsSystem now h = (h, omega arith)
  Reach-IsSystem (later i {t} r) h =
      let (v, le) = Reach-IsSystem r h in let (v', le') = step-IsSystem t i v in (v', omega arith)
