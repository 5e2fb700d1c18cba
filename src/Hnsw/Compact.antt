-- ===== src/Hnsw/Compact.antt =====
-- src/hnsw.cpp: `compact`, which writes the live vectors to a new index file and truncates the log.
pub mod Live
pub mod Order
use neuraldatabase.Prelude.{
  ℕ, zero, suc, ◌+◌, ◌*◌, Bool, true, false, not, Option, none, some, List, [], if◌then◌else◌,
  get_or, drop,
}
use neuraldatabase.Float.{Float}
use neuraldatabase.Kernels.{Arith}
use neuraldatabase.Wal.{Wal, Opened, opened, cannot_open, open_wal, checkpoint}
use neuraldatabase.Hnsw.State.{HnswIndex, new_index}
use neuraldatabase.Hnsw.Layer.{Scratch}
use neuraldatabase.Hnsw.Insert.{insert}
use neuraldatabase.Hnsw.Storage.{Saved, saved, cannot_write, save}

-- What the three calls that open a file return.
pub record Opens : Type 0 where
  pub index_file : Bool
  pub log : Bool
  pub truncated_log : Bool

-- What stands on disk at the end, and whether the call threw.
pub record Outcome : Type 0 where
  pub index_file : Option (List ℕ)
  pub log_file : Option (List ℕ)
  pub thrown : Bool

-- the WAL and its checkpoint, once the index file is written
unfoldable pub truncate_log : Opens → List ℕ → Option (List ℕ) → Outcome
unfolding open_wal checkpoint
truncate_log opens bytes log = elim (open_wal opens.log log) [
  | cannot_open ↦ record { index_file = some bytes; log_file = log; thrown = true }
  | opened w ↦
      let (truncated, w') = checkpoint opens.truncated_log w in
      record { index_file = some bytes; log_file = w'.file; thrown = not truncated }
]

module _ (ops : Arith Float) where
  -- `fresh.insert` of node `i`; `levels i` is what `random_layer` draws for it
  unfoldable pub reinsert :
      HnswIndex → (levels : ℕ → ℕ) → (i : ℕ) → HnswIndex × Scratch → HnswIndex × Scratch
  reinsert index levels i (fresh, scratch) =
      insert ops fresh (get_or index.id_map i 0) (drop (i * index.dim) index.raw_vectors)
        (get_or index.metadata i []) (levels i) scratch

  -- The loop over the `n` nodes from `i` on.
  unfoldable pub refill :
      HnswIndex → (levels : ℕ → ℕ) → (i n : ℕ) → HnswIndex × Scratch → HnswIndex × Scratch
  refill index levels i zero fresh = fresh
  refill index levels i (suc n) fresh =
      let skipped = refill index levels (i + 1) n fresh in
      let filled = refill index levels (i + 1) n (reinsert index levels i fresh) in
      if get_or index.tombstone i false then skipped else filled

  -- the fresh index
  unfoldable pub compacted : HnswIndex → (levels : ℕ → ℕ) → Scratch → HnswIndex × Scratch
  compacted index levels scratch =
      refill index levels 0 index.num_vectors (new_index index.dim index.cfg, scratch)

  -- `old` and `log` are what stands at the two paths.
  unfoldable pub compact :
      Opens → HnswIndex → (levels : ℕ → ℕ) → Scratch → (old log : Option (List ℕ)) → Outcome
  compact opens index levels scratch old log =
      elim (save opens.index_file (compacted index levels scratch).0) [
        | cannot_write ↦ record { index_file = old; log_file = log; thrown = true }
        | saved bytes ↦ truncate_log opens bytes log
      ]
