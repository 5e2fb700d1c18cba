-- ===== src/Tests/Wal.antt =====
-- Runs of src/wal.cpp.
use neuraldatabase.Prelude.{◌≡◌, refl, some, ◌++◌, foldl, take, arith, All, true}
use neuraldatabase.Wal.{Wal, replay, checkpoint}
use neuraldatabase.Wal.Entries.{IsEntry, append_entry, log_bytes}
use neuraldatabase.Wal.Replay.{
  call, whole_records, replay-take, replay-append_entries, replay-checkpoint,
}
use neuraldatabase.VectorStore.{new_index}
use neuraldatabase.Tests.Data.{entries, on_insert, on_delete}

entries-All : All IsEntry entries
entries-All = omega arith

log : Wal
log = record { file = some (log_bytes entries); is_open = true }

replay-take_example :
    replay on_insert on_delete (some (take 30 (log_bytes entries))) (new_index 2)
    ≡ foldl (call on_insert on_delete) (new_index 2) (take (whole_records 30 entries) entries)
replay-take_example = replay-take on_insert on_delete 30 entries (new_index 2) entries-All

replay-append_entries_example :
    replay on_insert on_delete (foldl append_entry log entries).file (new_index 2)
    ≡ foldl (call on_insert on_delete) (new_index 2) (entries ++ entries)
unfolding log
replay-append_entries_example =
    replay-append_entries on_insert on_delete entries entries log (new_index 2) entries-All
      entries-All refl refl

replay-checkpoint_example :
    replay on_insert on_delete
      (foldl append_entry (checkpoint true log).1 entries).file
      (new_index 2)
    ≡ foldl (call on_insert on_delete) (new_index 2) entries
replay-checkpoint_example =
    replay-checkpoint on_insert on_delete entries log (new_index 2) entries-All
