-- ===== src/Hnsw/Compact/Order.antt =====
-- src/hnsw.cpp: in which order `compact` writes the index file and truncates the log.
use neuraldatabase.Prelude.{
  ℕ, ◌≡◌, ◌⊎◌, inl, inr, refl, Bool-cases, true, false, Option, some, List, [],
}
use neuraldatabase.Float.{Float}
use neuraldatabase.Kernels.{Arith}
use neuraldatabase.Wal.{content, open_wal, checkpoint}
use neuraldatabase.Hnsw.State.{HnswIndex}
use neuraldatabase.Hnsw.Layer.{Scratch}
use neuraldatabase.Hnsw.Storage.{save, saved_bytes}
use neuraldatabase.Hnsw.Compact.{Opens, Outcome, truncate_log, compacted, compact}

-- The call threw and the log keeps its bytes, or it did not, the log is empty and the compacted
-- index stands in its file.
abbrev pub IsSafe : HnswIndex → Option (List ℕ) → Outcome → Type 0
IsSafe fresh log after =
    ((after.thrown ≡ true) × (content after.log_file ≡ content log))
    ⊎ ((after.thrown ≡ false)
        × (after.log_file ≡ some [])
        × (after.index_file ≡ some (saved_bytes fresh)))

truncate_log-IsSafe :
    (opens : Opens) (fresh : HnswIndex) (log : Option (List ℕ))
    → IsSafe fresh log (truncate_log opens (saved_bytes fresh) log)
unfolding truncate_log open_wal checkpoint
truncate_log-IsSafe opens fresh log = elim (Bool-cases opens.log) [
  | inr e ↦ rw e (inl (refl, refl))
  | inl e ↦ rw e (elim (Bool-cases opens.truncated_log) [
    | inl t ↦ rw t (inr (refl, refl, refl))
    | inr t ↦ rw t (inl (refl, refl))
  ])
]

-- Whichever of its three files can be opened, `compact` throws and leaves the bytes of the log, or
-- it returns, the log is empty and the index file holds the compacted index.
pub compact-IsSafe :
    (ops : Arith Float) (opens : Opens) (index : HnswIndex) (levels : ℕ → ℕ) (s : Scratch)
    (old log : Option (List ℕ))
    → IsSafe (compacted ops index levels s).0 log (compact ops opens index levels s old log)
unfolding compact save truncate_log
compact-IsSafe ops opens index levels s old log = elim (Bool-cases opens.index_file) [
  | inl e ↦ rw e (truncate_log-IsSafe opens (compacted ops index levels s).0 log)
  | inr e ↦ rw e (inl (refl, refl))
]
