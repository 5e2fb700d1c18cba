-- ===== src/Wal/Entries.antt =====
-- The calls of the log's writers, as a list, and the records that the reader makes of their bytes.
use neuraldatabase.Prelude.{
  ℕ, ◌%◌, ◌^◌, ◌<◌, ◌≡◌, refl, ap, some, none, List, [], ◌∷◌, ◌++◌, append_assoc, append-nil, arith,
  length, take, All, length-append, take_all,
}
use neuraldatabase.Bytes.{
  le_bytes, of_le_bytes, fread, read_int, read_words, write_words, Fits, word-Fits, long-Fits,
  read_int-le_bytes, read_words-write_words, fread-append,
}
use neuraldatabase.Bytes.Strict.{
  IsStrict, after-IsStrict, done-IsStrict, fread-IsStrict, read_int-IsStrict, read_words-IsStrict,
}
use neuraldatabase.Float.{Float}
use neuraldatabase.Wal.{
  Wal, WalRecord, insert_op, delete_op, insert_bytes, delete_bytes, read_record, append_insert,
  append_delete,
}

pub data Entry : Type 0 where
  inserted : ℕ → List Float → List ℕ → Entry
  deleted : ℕ → Entry

-- The arguments are a uint64_t, floats of 32 bits, and sizes that fit the 32 bits stored.
pub record IsInsert (id : ℕ) (vec : List Float) (metadata : List ℕ) : Type 0 where
  pub id_fits : id < 2 ^ 64
  pub dim_fits : length vec < 2 ^ 32
  pub floats : All (Fits 4) vec
  pub metadata_fits : length metadata < 2 ^ 32

abbrev pub IsEntry : Entry → Type 0
IsEntry (inserted id vec metadata) = IsInsert id vec metadata
IsEntry (deleted id) = id < 2 ^ 64

unfoldable pub entry_bytes : Entry → List ℕ
entry_bytes (inserted id vec metadata) = insert_bytes id vec metadata
entry_bytes (deleted id) = delete_bytes id

unfoldable pub log_bytes : List Entry → List ℕ
log_bytes [] = []
log_bytes (e ∷ es) = entry_bytes e ++ log_bytes es

unfoldable pub entry_record : Entry → WalRecord
entry_record (inserted id vec metadata) = record {
  op = insert_op;
  id = id;
  dim = length vec;
  vec = vec;
  metadata = metadata;
}
entry_record (deleted id) = record { op = delete_op; id = id; dim = 0; vec = []; metadata = [] }

-- the writers, called one after another
unfoldable pub append_entry : Wal → Entry → Wal
append_entry w (inserted id vec metadata) = append_insert w id vec metadata
append_entry w (deleted id) = append_delete w id

read_byte : (b : ℕ) (rest : List ℕ) → read_int 1 (b ∷ rest) ≡ some (b, rest)
unfolding read_int fread of_le_bytes
read_byte b rest = ground arith

read_insert :
    (id : ℕ) (vec : List Float) (metadata rest : List ℕ)
    → IsInsert id vec metadata
    → read_record (insert_bytes id vec metadata ++ rest)
      ≡ some (entry_record (inserted id vec metadata), rest)
unfolding read_record insert_bytes entry_record
read_insert id vec metadata rest h =
    let d : length vec % 2 ^ 32 ≡ length vec = omega (arith, h.dim_fits) in
    let m : length metadata % 2 ^ 32 ≡ length metadata = omega (arith, h.metadata_fits) in
    let m' : take (length metadata) metadata ≡ metadata =
      take_all (length metadata) metadata (omega arith) in
    let r₄ = le_bytes 4 (length metadata) ++ (metadata ++ rest) in
    let r₃ = write_words 4 vec ++ r₄ in
    let r₂ = le_bytes 4 (length vec) ++ r₃ in
    rw (d, m, m')
      (simp (
        append_assoc,
        read_byte insert_op,
        read_int-le_bytes 8 id r₂ (long-Fits id h.id_fits),
        read_int-le_bytes 4 (length vec) r₃ (word-Fits (length vec) h.dim_fits),
        read_words-write_words 4 vec r₄ h.floats,
        read_int-le_bytes 4 (length metadata) (metadata ++ rest)
            (word-Fits (length metadata) h.metadata_fits),
        fread-append metadata rest,
      ))

read_delete :
    (id : ℕ) (rest : List ℕ)
    → id < 2 ^ 64
    → read_record (delete_bytes id ++ rest) ≡ some (entry_record (deleted id), rest)
unfolding read_record delete_bytes entry_record read_words fread
read_delete id rest h = simp (
  append_assoc,
  read_byte delete_op,
  read_int-le_bytes 8 id (le_bytes 4 0 ++ (le_bytes 4 0 ++ rest)) (long-Fits id h),
  read_int-le_bytes 4 0 (le_bytes 4 0 ++ rest) (word-Fits 0 (omega arith)),
  read_int-le_bytes 4 0 rest (word-Fits 0 (omega arith)),
)

-- A record is read back as it was written, whatever follows it.
pub read_record-entry_bytes :
    (e : Entry) (rest : List ℕ)
    → IsEntry e
    → read_record (entry_bytes e ++ rest) ≡ some (entry_record e, rest)
unfolding entry_bytes
read_record-entry_bytes (inserted id vec metadata) rest h = read_insert id vec metadata rest h
read_record-entry_bytes (deleted id) rest h = read_delete id rest h

pub read_record-IsStrict : IsStrict read_record
unfolding read_record
read_record-IsStrict = after-IsStrict (read_int 1) _ (read_int-IsStrict 1) λ op.
    after-IsStrict (read_int 8) _ (read_int-IsStrict 8) λ id.
      after-IsStrict (read_int 4) _ (read_int-IsStrict 4) λ dim.
        after-IsStrict (read_words 4 dim) _ (read_words-IsStrict 4 dim) λ vec.
          after-IsStrict (read_int 4) _ (read_int-IsStrict 4) λ mlen.
            after-IsStrict (fread mlen) _ (fread-IsStrict mlen) λ metadata.
              done-IsStrict (record { op = op; id = id; dim = dim; vec = vec; metadata = metadata })

-- A record cut short is no record.
pub read_record_cut :
    (e : Entry) (n : ℕ)
    → IsEntry e
    → n < length (entry_bytes e)
    → read_record (take n (entry_bytes e)) ≡ none
read_record_cut e n h short =
    let whole : read_record (entry_bytes e) ≡ some (entry_record e, []) =
      rw append-nil at (read_record-entry_bytes e [] h) in
    let t = read_record-IsStrict.takes (entry_bytes e) (entry_record e) [] whole in
    let split : entry_bytes e ≡ t.used = rw append-nil at t.split in
    rw split (t.truncated n (rw (← split) short))

pub read_record-nil : read_record [] ≡ none
unfolding read_record read_int fread
read_record-nil = refl

used_some :
    (used : List ℕ) (r : WalRecord) → read_record (used ++ []) ≡ some (r, []) → 0 < length used
unfolding read_record read_int fread
used_some [] r h = absurd (ground arith)
used_some (b ∷ used) r h = omega arith

-- Every successful round takes at least one byte.
pub read_record_shrinks :
    (bytes rest : List ℕ) (r : WalRecord)
    → read_record bytes ≡ some (r, rest)
    → length rest < length bytes
read_record_shrinks bytes rest r h =
    let t = read_record-IsStrict.takes bytes r rest h in
    omega (arith, used_some t.used r (t.extended []), length-append t.used rest, ap length t.split)
