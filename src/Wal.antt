-- ===== src/Wal.antt =====
-- src/wal.cpp, include/wal.hpp: the write-ahead log. The file is its list of bytes; a stream is
-- open or null. The proofs are in the modules below.
pub mod Entries
pub mod Replay
use neuraldatabase.Prelude.{
  ℕ, zero, suc, ◌%◌, ◌^◌, Bool, true, false, Option, none, some, List, [], ◌∷◌, ◌++◌, ◌==◌,
  if◌then◌else◌, length, take,
}
use neuraldatabase.Bytes.{◌>>=◌, le_bytes, fread, read_int, write_words, read_words}
use neuraldatabase.Float.{Float}

-- enum class WALOp : uint8_t
abbrev pub insert_op : ℕ
insert_op = 1

abbrev pub delete_op : ℕ
delete_op = 2

pub record WalRecord : Type 0 where
  pub op : ℕ
  pub id : ℕ
  pub dim : ℕ
  pub vec : List Float
  pub metadata : List ℕ

-- `fp_` is null or open for appending; `file` is what stands at `path_`, if it exists.
pub record Wal : Type 0 where
  pub file : Option (List ℕ)
  pub is_open : Bool

pub data Opened : Type 0 where
  opened : Wal → Opened
  cannot_open : Opened

abbrev pub content : Option (List ℕ) → List ℕ
content none = []
content (some bytes) = bytes

-- The constructor: fopen(path, "ab") creates the file if it is absent. `opens` says whether the
-- system lets it.
unfoldable pub open_wal : Bool → Option (List ℕ) → Opened
open_wal true file = opened (record { file = some (content file); is_open = true })
open_wal false file = cannot_open

-- the bytes of `append_insert`, field by field
unfoldable pub insert_bytes : ℕ → List Float → List ℕ → List ℕ
insert_bytes id vec metadata =
    insert_op
    ∷ (le_bytes 8 id
        ++ (le_bytes 4 (length vec % 2 ^ 32)
            ++ (write_words 4 vec
                ++ (le_bytes 4 (length metadata % 2 ^ 32)
                    ++ take (length metadata % 2 ^ 32) metadata))))

-- the bytes of `append_delete`
unfoldable pub delete_bytes : ℕ → List ℕ
delete_bytes id = delete_op ∷ (le_bytes 8 id ++ (le_bytes 4 0 ++ le_bytes 4 0))

-- `fwrite` at the end of the file, then `fflush`. On a null stream the call crashes, and the file
-- stays as it is.
unfoldable pub write_end : Wal → List ℕ → Wal
write_end w bytes = if w.is_open then record w { file = some (content w.file ++ bytes) } else w

unfoldable pub append_insert : Wal → ℕ → List Float → List ℕ → Wal
unfolding insert_bytes write_end
append_insert w id vec metadata = write_end w (insert_bytes id vec metadata)

unfoldable pub append_delete : Wal → ℕ → Wal
unfolding delete_bytes write_end
append_delete w id = write_end w (delete_bytes id)

-- One round of the loop of `replay`, up to the dispatch: `none` is a `break`.
unfoldable pub read_record : List ℕ → Option (WalRecord × List ℕ)
read_record bytes = do
  (op, r₁) ← read_int 1 bytes
  (id, r₂) ← read_int 8 r₁
  (dim, r₃) ← read_int 4 r₂
  (vec, r₄) ← read_words 4 dim r₃
  (mlen, r₅) ← read_int 4 r₄
  (metadata, r₆) ← fread mlen r₅
  some (record { op = op; id = id; dim = dim; vec = vec; metadata = metadata }, r₆)

-- `on_delete` may be null.
abbrev pub call_delete : {S : Type 0} → Option (S → ℕ → S) → S → ℕ → S
call_delete none s id = s
call_delete (some f) s id = f s id

module _ {S : Type 0} (on_insert : S → WalRecord → S) (on_delete : Option (S → ℕ → S)) where
  -- the `if`/`else if` at the end of a round; a record with any other operation is skipped
  unfoldable pub dispatch : S → WalRecord → S
  dispatch s rec =
      if rec.op == insert_op
      then on_insert s rec
      else if rec.op == delete_op
      then call_delete on_delete s rec.id
      else s

  unfoldable pub replay_loop : ℕ → List ℕ → S → S
  replay_loop zero bytes s = s
  replay_loop (suc fuel) bytes s = elim (read_record bytes) [
    | none ↦ s
    | some (rec, rest) ↦ replay_loop fuel rest (dispatch s rec)
  ]

  -- A round takes a byte at least, so the length of the file is fuel enough.
  unfoldable pub replay : Option (List ℕ) → S → S
  unfolding replay_loop
  replay none s = s
  replay (some bytes) s = replay_loop (suc (length bytes)) bytes s

-- Truncates by fopen(path, "wb"); `opens` says whether that succeeds. The old stream is closed
-- first in any case.
unfoldable pub checkpoint : Bool → Wal → Bool × Wal
checkpoint true w = (true, record { file = some []; is_open = true })
checkpoint false w = (false, record w { is_open = false })
