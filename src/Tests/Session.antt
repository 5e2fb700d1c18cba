-- ===== src/Tests/Session.antt =====
-- A run of calls of the Python class Index.
use neuraldatabase.Prelude.{◌≡◌, sym, ◌∷◌, [], some, true, arith}
use neuraldatabase.Filter.Meaning.{un_some}
use neuraldatabase.Hnsw.Storage.{saved_bytes}
use neuraldatabase.Bindings.Values.{NpArray, py_none}
use neuraldatabase.Bindings.Session.{
  Session, Call, insert_call, delete_call, find_call, load_call, set_ef_search_call, after_call,
}
use neuraldatabase.Bindings.Session.Valid.{
  IsSession, IsArray, IsCall, none_yet, and_then, Calls-IsSession,
}
use neuraldatabase.Tests.Data.{toy, row, no_scratch}
use neuraldatabase.Tests.Hnsw.{row-IsIndex, no_scratch-IsScratch}
use neuraldatabase.Tests.HnswFiles.{row-IsStorable}
use neuraldatabase.Tests.Metadata.{values, json}

abbrev start : Session
start = record { index = row; scratch = no_scratch; files = λ path. some (saved_bytes row) }

abbrev single : NpArray
single = record { shape = 1 ∷ []; memory = 2 ∷ [] }

single-IsArray : IsArray single
single-IsArray n h = omega (arith, first_of h)
  where
    first_of : 1 ∷ [] ≡ n ∷ [] → 1 ≡ n
    first_of h = ground arith

load_row : IsCall start (load_call [] true 9)
load_row bytes h = record {
  source = row;
  written = sym (un_some h);
  valid = row-IsIndex;
  fits = row-IsStorable;
  m_le = omega arith;
}

abbrev after : Session → Call → Session
after s c = after_call values json toy s c

-- A file is loaded, a vector inserted, one searched for and one deleted, and ef_search is set.
abbrev final : Session
final =
    after
      (after
        (after (after (after start (load_call [] true 9)) (insert_call 4 single py_none 1))
          (find_call single 2 py_none))
        (delete_call 4))
      (set_ef_search_call 7)

Calls-IsSession_example : IsSession final
Calls-IsSession_example =
    Calls-IsSession values json toy
      (and_then
        (and_then
          (and_then
            (and_then (and_then none_yet (load_call [] true 9) load_row)
              (insert_call 4 single py_none 1) single-IsArray)
            (find_call single 2 py_none) tt)
          (delete_call 4) tt)
        (set_ef_search_call 7) (omega arith))
      (record {
        index = row-IsIndex;
        some_link = omega arith;
        some_result = omega arith;
        scratch = no_scratch-IsScratch;
      })
