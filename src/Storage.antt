-- ===== src/Storage.antt =====
-- src/storage.cpp, include/storage.hpp: the stream that files are written with and the mapping that
-- they are read through, on POSIX. What the system answers to a call is an argument.
pub mod Reading
use neuraldatabase.Prelude.{
  ℕ, zero, suc, ◌+◌, ◌-◌, ◌≤◌, ◌<◌, ◌^◌, ◌≡◌, refl, ◌∙◌, ap, sym, Bool, true, false, ◌&&◌, Option,
  none, some, List, [], ◌∷◌, ◌++◌, append_assoc, append-nil, arith, All, Bool-cases, inl, inr, ltb,
  leb, if◌then◌else◌, length, take, take_all, length-append,
}
use neuraldatabase.Bytes.{
  ◌>>=◌, le_bytes, read_int, read_int-le_bytes, word-Fits, long-Fits, length-le_bytes,
}

-- `ok`, or a std::runtime_error
pub data Outcome (A : Type 0) : Type 0 where
  ok : A → Outcome A
  throws : Outcome A

-- How many descriptors and mappings the process holds.
pub record Process : Type 0 where
  pub descriptors : ℕ
  pub mappings : ℕ

pub record MmapReader : Type 0 where
  pub bytes : List ℕ
  pub size : ℕ

-- The constructor: open, fstat, mmap. `maps` says whether mmap succeeds; it never does for a length
-- of 0. After a failure of mmap the descriptor is closed.
unfoldable pub open_reader :
    (opens maps : Bool) → (file : List ℕ) → Process → Outcome MmapReader × Process
open_reader false maps file p = (throws, p)
open_reader true maps file p =
    let opened : Process = record p { descriptors = p.descriptors + 1 } in
    if maps && ltb 0 (length file)
    then (
      ok (record { bytes = file; size = length file }),
      record opened { mappings = opened.mappings + 1 },
    )
    else (throws, record opened { descriptors = opened.descriptors - 1 })

-- The destructor: munmap, close.
unfoldable pub close_reader : Process → Process
close_reader p = record { descriptors = p.descriptors - 1; mappings = p.mappings - 1 }

-- The stream: what has been put into it, which its destructor flushes.
pub record FileWriter : Type 0 where
  pub written : List ℕ

-- `fopen(path, "wb")`
unfoldable pub open_writer : (opens : Bool) → Outcome FileWriter
open_writer false = throws
open_writer true = ok (record { written = [] })

-- `write_raw`, where fwrite takes `accepted` bytes at most
unfoldable pub write_raw : (accepted : ℕ) → List ℕ → FileWriter → Outcome (Unit {0}) × FileWriter
write_raw accepted bytes w = (
  if leb (length bytes) accepted then ok tt else throws,
  record { written = w.written ++ take accepted bytes },
)

-- Calls of `write_raw` in a row, until one throws: each with what fwrite accepts of it.
unfoldable pub write_calls : List (ℕ × List ℕ) → FileWriter → Outcome (Unit {0}) × FileWriter
write_calls [] w = (ok tt, w)
write_calls ((accepted, bytes) ∷ rest) w =
    let (done, w') = write_raw accepted bytes w in
    elim done [ throws ↦ (throws, w') | ok _ ↦ write_calls rest w' ]

pub record FileHeader : Type 0 where
  pub magic : ℕ
  pub version : ℕ
  pub dim : ℕ
  pub reserved : ℕ
  pub num_vectors : ℕ

abbrev pub new_header : FileHeader
new_header = record { magic = 0x4E444220; version = 1; dim = 0; reserved = 0; num_vectors = 0 }

-- `write(header)`: the 24 bytes of the struct
unfoldable pub header_bytes : FileHeader → List ℕ
header_bytes h =
    le_bytes 4 h.magic
    ++ (le_bytes 4 h.version
        ++ (le_bytes 4 h.dim ++ (le_bytes 4 h.reserved ++ le_bytes 8 h.num_vectors)))
