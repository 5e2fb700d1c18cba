-- ===== src/Wal/Replay.antt =====
-- src/wal.cpp: what `WAL::replay` makes of a log, whole or cut off.
use neuraldatabase.Prelude.{
  ℕ, zero, suc, ◌-◌, ◌<◌, ◌≤◌, ◌≡◌, inl, inr, refl, sym, ap, ◌∙◌, true, Option, none, some, List,
  [], ◌∷◌, ◌++◌, append_assoc, append-nil, foldl, arith, length, take, All, All-take, All-append,
  ltb, if◌then◌else◌, Bool-cases, Option-cases, take-append, take-append_ge,
}
use neuraldatabase.Wal.{
  Wal, WalRecord, write_end, insert_bytes, delete_bytes, append_insert, append_delete, read_record,
  call_delete, dispatch, replay_loop, replay, checkpoint,
}
use neuraldatabase.Wal.Entries.{
  Entry, inserted, deleted, IsEntry, entry_bytes, log_bytes, entry_record, append_entry,
  read_record-nil, read_record-entry_bytes, read_record_cut, read_record_shrinks,
}

-- How many of the records stand whole in the first `n` bytes of their log.
unfoldable pub whole_records : ℕ → List Entry → ℕ
whole_records n [] = 0
whole_records n (e ∷ es) =
    let more = whole_records (n - length (entry_bytes e)) es in
    if ltb n (length (entry_bytes e)) then 0 else suc more

-- The writers add exactly the bytes of their entries at the end of the file of an open log.
pub file-append_entries :
    (es : List Entry) (w : Wal) (bytes : List ℕ)
    → w.is_open ≡ true
    → w.file ≡ some bytes
    → (foldl append_entry w es).file ≡ some (bytes ++ log_bytes es)
unfolding append_entry append_insert append_delete write_end entry_bytes log_bytes
file-append_entries [] w bytes o h = rw (append-nil bytes) h
file-append_entries (inserted id vec metadata ∷ es) w bytes o h =
    rw (← append_assoc bytes (insert_bytes id vec metadata) (log_bytes es)) (
      file-append_entries es (append_insert w id vec metadata)
        (bytes ++ insert_bytes id vec metadata) (rw o refl) (rw o (rw h refl)))
file-append_entries (deleted id ∷ es) w bytes o h =
    rw (← append_assoc bytes (delete_bytes id) (log_bytes es)) (
      file-append_entries es (append_delete w id) (bytes ++ delete_bytes id) (rw o refl)
        (rw o (rw h refl)))

log_bytes-append : (es fs : List Entry) → log_bytes (es ++ fs) ≡ log_bytes es ++ log_bytes fs
unfolding log_bytes
log_bytes-append [] fs = refl
log_bytes-append (e ∷ es) fs =
    rw (log_bytes-append es fs, append_assoc (entry_bytes e) (log_bytes es) (log_bytes fs))

-- A log cut after `n` bytes: its whole records, and a piece that is none.
record Cut (n : ℕ) (es : List Entry) : Type 0 where
  piece : List ℕ
  split : take n (log_bytes es) ≡ log_bytes (take (whole_records n es) es) ++ piece
  stops : read_record piece ≡ none

log_bytes-Cut : (n : ℕ) (es : List Entry) → All IsEntry es → Cut n es
unfolding log_bytes whole_records
log_bytes-Cut n [] h = record { piece = []; split = take-nil n; stops = read_record-nil }
  where
    take-nil : (n : ℕ) → take {A = ℕ} n [] ≡ []
    take-nil zero = refl
    take-nil (suc n) = refl
log_bytes-Cut n (e ∷ es) h = elim (Bool-cases (ltb n (length (entry_bytes e)))) [
  | inl short ↦
      let p : n ≤ length (entry_bytes e) = ground arith in
      record {
        piece = take n (entry_bytes e);
        split = rw (short, take-append n (entry_bytes e) (log_bytes es) p);
        stops = read_record_cut e n h.0 (ground arith);
      }
  | inr whole ↦
      let c = log_bytes-Cut (n - length (entry_bytes e)) es h.1 in
      let p : length (entry_bytes e) ≤ n = ground arith in
      record {
        piece = c.piece;
        split =
            rw (whole, take-append_ge n (entry_bytes e) (log_bytes es) p, c.split)
              (sym (append_assoc (entry_bytes e) _ c.piece));
        stops = c.stops;
      }
]

module _ {S : Type 0} (on_insert : S → WalRecord → S) (on_delete : Option (S → ℕ → S)) where
  -- what a call of a writer asks of the callbacks
  abbrev pub call : S → Entry → S
  call s (inserted id vec metadata) = on_insert s (entry_record (inserted id vec metadata))
  call s (deleted id) = call_delete on_delete s id

  dispatch-entry_record :
      (s : S) (e : Entry) → dispatch on_insert on_delete s (entry_record e) ≡ call s e
  unfolding dispatch entry_record
  dispatch-entry_record s (inserted id vec metadata) = refl
  dispatch-entry_record s (deleted id) = refl

  replay_loop_stop :
      (fuel : ℕ) (bytes : List ℕ) (s : S)
      → read_record bytes ≡ none
      → replay_loop on_insert on_delete (suc fuel) bytes s ≡ s
  unfolding replay_loop
  replay_loop_stop fuel bytes s e = ground arith

  replay_loop_next :
      (fuel : ℕ) (bytes rest : List ℕ) (r : WalRecord) (s : S)
      → read_record bytes ≡ some (r, rest)
      → replay_loop on_insert on_delete (suc fuel) bytes s
        ≡ replay_loop on_insert on_delete fuel rest (dispatch on_insert on_delete s r)
  unfolding replay_loop
  replay_loop_next fuel bytes rest r s e = ground arith

  -- More fuel than the bytes left makes no difference.
  pub replay_loop_fuel :
      (fuel more : ℕ) (bytes : List ℕ) (s : S)
      → length bytes < fuel
      → length bytes < more
      → replay_loop on_insert on_delete fuel bytes s ≡ replay_loop on_insert on_delete more bytes s
  replay_loop_fuel zero more bytes s h k = elim h [ ]
  replay_loop_fuel (suc fuel) zero bytes s h k = elim k [ ]
  replay_loop_fuel (suc fuel) (suc more) bytes s h k = elim (Option-cases (read_record bytes)) [
    | inl e ↦ replay_loop_stop fuel bytes s e ∙ sym (replay_loop_stop more bytes s e)
    | inr ((r, rest), e) ↦
        rw (replay_loop_next fuel bytes rest r s e, replay_loop_next more bytes rest r s e)
          (replay_loop_fuel fuel more rest (dispatch on_insert on_delete s r)
            (omega (arith, read_record_shrinks bytes rest r e))
            (omega (arith, read_record_shrinks bytes rest r e)))
  ]

  replay_loop-entries :
      (es : List Entry) (tail : List ℕ) (fuel : ℕ) (s : S)
      → All IsEntry es
      → read_record tail ≡ none
      → length (log_bytes es ++ tail) < fuel
      → replay_loop on_insert on_delete fuel (log_bytes es ++ tail) s ≡ foldl call s es
  unfolding log_bytes
  replay_loop-entries es tail zero s h stop k = elim k [ ]
  replay_loop-entries [] tail (suc fuel) s h stop k = replay_loop_stop fuel tail s stop
  replay_loop-entries (e ∷ es) tail (suc fuel) s h stop k =
      let rest = log_bytes es ++ tail in
      let first = read_record-entry_bytes e rest h.0 in
      rw
        (
          append_assoc (entry_bytes e) (log_bytes es) tail,
          replay_loop_next fuel (entry_bytes e ++ rest) rest (entry_record e) s first,
          dispatch-entry_record s e,
        )
        (replay_loop-entries es tail fuel (call s e) h.1 stop (
          omega (
            arith,
            read_record_shrinks (entry_bytes e ++ rest) rest (entry_record e) first,
            ap length (append_assoc (entry_bytes e) (log_bytes es) tail),
          )))

  -- Replaying a log calls back for each entry, in order.
  pub replay-log_bytes :
      (es : List Entry) (s : S)
      → All IsEntry es
      → replay on_insert on_delete (some (log_bytes es)) s ≡ foldl call s es
  unfolding replay
  replay-log_bytes es s h =
      let e : log_bytes es ++ [] ≡ log_bytes es = append-nil (log_bytes es) in
      rw e at (
        replay_loop-entries es [] (suc (length (log_bytes es))) s h read_record-nil
          (omega (arith, ap length e)))

  -- If the file ends in the middle of a write, replay makes the calls of the entries that stand
  -- whole in it, and no others.
  pub replay-take :
      (n : ℕ) (es : List Entry) (s : S)
      → All IsEntry es
      → replay on_insert on_delete (some (take n (log_bytes es))) s
        ≡ foldl call s (take (whole_records n es) es)
  unfolding replay
  replay-take n es s h =
      let c = log_bytes-Cut n es h in
      let m = whole_records n es in
      rw c.split (
        replay_loop-entries (take m es) c.piece (suc (length (log_bytes (take m es) ++ c.piece))) s
          (All-take IsEntry m es h) c.stops (omega arith))

  -- Appending to an open log replays the old entries, then the new ones.
  pub replay-append_entries :
      (old es : List Entry) (w : Wal) (s : S)
      → All IsEntry old
      → All IsEntry es
      → w.is_open ≡ true
      → w.file ≡ some (log_bytes old)
      → replay on_insert on_delete (foldl append_entry w es).file s ≡ foldl call s (old ++ es)
  replay-append_entries old es w s h k o e =
      rw (file-append_entries es w (log_bytes old) o e, ← log_bytes-append old es)
        (replay-log_bytes (old ++ es) s (All-append IsEntry old es h k))

  -- After a checkpoint only what is appended since is replayed, whatever the log held.
  pub replay-checkpoint :
      (es : List Entry) (w : Wal) (s : S)
      → All IsEntry es
      → replay on_insert on_delete (foldl append_entry (checkpoint true w).1 es).file s
        ≡ foldl call s es
  unfolding checkpoint log_bytes
  replay-checkpoint es w s h = replay-append_entries [] es (checkpoint true w).1 s tt h refl refl
