-- ===== src/Bindings/Session.antt =====
-- python/bindings.cpp: an object of the class Index through the calls that a Python program makes,
-- with the files at their paths. A call that throws leaves the object as it is.
pub mod Valid
use neuraldatabase.Prelude.{ℕ, ◌*◌, Bool, Option, none, some, List, if◌then◌else◌}
use neuraldatabase.Float.{Float}
use neuraldatabase.Kernels.{Arith}
use neuraldatabase.Filter.{Text, Json, text_eq}
use neuraldatabase.Hnsw.State.{HnswConfig, HnswIndex}
use neuraldatabase.Hnsw.Layer.{Scratch}
use neuraldatabase.Hnsw.Query
use neuraldatabase.Hnsw.Tombstones
use neuraldatabase.Hnsw.Storage.{
  Saved, saved, cannot_write, save, Loaded, loaded, cannot_read, bad_magic, load,
}
use neuraldatabase.Hnsw.Compact.{Opens, Outcome, compacted, compact}
use neuraldatabase.Bindings.Values.{
  PyValue, py_none, JsonValues, NpArray, get_ptr, insert, search_call,
}

abbrev pub Files : Type 0
Files = Text → Option (List ℕ)

-- the object, the buffer of the thread, and the files
pub record Session : Type 0 where
  pub index : HnswIndex
  pub scratch : Scratch
  pub files : Files

-- The methods. A call has what the system answers, what `random_layer` draws, and for `load_call`
-- what an unset local holds.
pub data Call : Type 0 where
  insert_call : (id : ℕ) → NpArray → PyValue → (level : ℕ) → Call
  delete_call : (id : ℕ) → Call
  is_deleted_call : (id : ℕ) → Call
  compact_call : (index_path wal_path : Text) → Opens → (levels : ℕ → ℕ) → Call
  find_call : NpArray → (k : ℕ) → (where_obj : PyValue) → Call
  save_call : (path : Text) → (opens : Bool) → Call
  load_call : (path : Text) → (opens : Bool) → (unset : ℕ) → Call
  len_call : Call
  live_size_call : Call
  set_ef_search_call : (ef : ℕ) → Call

-- the files once one is written
unfoldable pub put : Files → Text → Option (List ℕ) → Files
put files path content p = if text_eq p path then content else files p

-- how many results the search is asked for
abbrev pub asked : PyValue → ℕ → ℕ
asked py_none k = k
asked _ k = k * 4

abbrev pub with_ef_search : HnswIndex → ℕ → HnswIndex
with_ef_search index ef = record index { cfg = record (index.cfg) { ef_search = ef } }

module _ {J : Type 0} (values : JsonValues J) (json : Json J) (ops : Arith Float) where
  -- The thread's buffer after a search: what is refused is refused before the search.
  unfoldable pub search_scratch :
      HnswIndex → NpArray → (k : ℕ) → (where_obj : PyValue) → Scratch → Scratch
  search_scratch index arr k where_obj s =
      elim (search_call values json ops index arr k where_obj s) [
        | none ↦ s
        | some _ ↦ elim (get_ptr arr index.dim) [
          | none ↦ s
          | some query ↦ (Query.search ops index query (asked where_obj k) s).1
        ]
      ]

  unfoldable pub compact_session :
      Session → (index_path wal_path : Text) → Opens → (levels : ℕ → ℕ) → Session
  compact_session s index_path wal_path opens levels =
      let out =
        compact ops opens s.index levels s.scratch (s.files index_path) (s.files wal_path) in
      record s {
        scratch = (compacted ops s.index levels s.scratch).1;
        files = put (put s.files index_path out.index_file) wal_path out.log_file;
      }

  unfoldable pub after_call : Session → Call → Session
  after_call s (insert_call id arr metadata level) =
      elim (insert values json ops s.index id arr metadata level s.scratch) [
        | none ↦ s
        | some r ↦ record s { index = r.0; scratch = r.1 }
      ]
  after_call s (delete_call id) = record s { index = Tombstones.delete_vector s.index id }
  after_call s (is_deleted_call id) = s
  after_call s (compact_call index_path wal_path opens levels) =
      compact_session s index_path wal_path opens levels
  after_call s (find_call arr k where_obj) = record s {
    scratch = search_scratch s.index arr k where_obj s.scratch;
  }
  after_call s (save_call path opens) = elim (save opens s.index) [
    | saved bytes ↦ record s { files = put s.files path (some bytes) }
    | cannot_write ↦ s
  ]
  after_call s (load_call path opens unset) =
      elim (load unset s.index (if opens then s.files path else none)) [
        | loaded index ↦ record s { index = index }
        | cannot_read ↦ s
        | bad_magic ↦ s
      ]
  after_call s len_call = s
  after_call s live_size_call = s
  after_call s (set_ef_search_call ef) = record s { index = with_ef_search s.index ef }
