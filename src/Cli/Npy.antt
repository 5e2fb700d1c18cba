-- ===== src/Cli/Npy.antt =====
-- src/cli.cpp: `load_npy`. The dimension in the header of the file is not looked at.
use neuraldatabase.Prelude.{
  ℕ, zero, suc, ◌+◌, ◌-◌, ◌*◌, ◌/◌, ◌%◌, ◌^◌, ◌<◌, ◌≡◌, ◌≢◌, refl, sym, ◌∙◌, true, false, Option,
  none, some, List, [], ◌∷◌, ◌++◌, append_assoc, append-nil, arith, All, ltb, leb, ◌==◌,
  if◌then◌else◌, length, take, drop, length-append, take-append, take_all,
}
use neuraldatabase.Float.{Float}
use neuraldatabase.Bytes.{
  le_bytes, of_le_bytes, write_words, read_words, Fits, length-le_bytes, of_le_bytes-le_bytes,
  length-write_words, read_words-write_words,
}

-- What a call leads to: an exception, a write past the end of the vector, or the floats with the
-- number of rows and the dimension.
pub data Loaded : Type 0 where
  cannot_open too_large overrun : Loaded
  loaded : List Float → (n d : ℕ) → Loaded

-- `prologue`: the first ten bytes, over what the local array held before
unfoldable pub prologue_of : (unset file : List ℕ) → List ℕ
prologue_of unset file = take 10 file ++ drop (length (take 10 file)) unset

-- the bytes at 8 and 9
unfoldable pub header_length : List ℕ → ℕ
header_length prologue = of_le_bytes (take 2 (drop 8 prologue))

-- `d = (d == 0) ? 384 : d`
unfoldable pub row_size : ℕ → ℕ
row_size d = if d == 0 then 384 else d

-- `n = data.size() / d`
unfoldable pub in_rows : (count d : ℕ) → Option (List Float × List ℕ) → Loaded
in_rows count d none = too_large
in_rows count d (some (floats, _)) = loaded floats (count / d) d

-- `file` is `none` where it cannot be opened; the words are there to be read if `overrun` is passed. The subtraction is one of a size_t, and a vector of
-- 2^61 floats or more is refused.
unfoldable pub load_npy : (unset : List ℕ) → (file : Option (List ℕ)) → (d : ℕ) → Loaded
load_npy unset none d = cannot_open
load_npy unset (some file) d =
    let data_offset = 10 + header_length (prologue_of unset file) in
    let body_size = (length file + 2 ^ 64 - data_offset) % 2 ^ 64 in
    let count = body_size / 4 in
    if leb (2 ^ 61) count
    then too_large
    else if ltb (4 * count) body_size
    then overrun
    else in_rows count (row_size d) (read_words 4 count (drop data_offset file))

-- A file in the format: eight bytes of magic and version, the length of the header, the header, and
-- the elements.
unfoldable pub npy_bytes : (magic header : List ℕ) → List Float → List ℕ
npy_bytes magic header floats =
    magic ++ (le_bytes 2 (length header) ++ (header ++ write_words 4 floats))

drop-append : (n : ℕ) (xs ys : List ℕ) → length xs ≡ n → drop n (xs ++ ys) ≡ ys
drop-append zero [] ys h = refl
drop-append zero (x ∷ xs) ys h = absurd (omega arith)
drop-append (suc n) [] ys h = absurd (omega arith)
drop-append (suc n) (x ∷ xs) ys h = drop-append n xs ys (omega arith)

take-prefix : (n : ℕ) (xs ys : List ℕ) → length xs ≡ n → take n (xs ++ ys) ≡ xs
take-prefix n xs ys h = take-append n xs ys (omega arith) ∙ take_all n xs (omega arith)

module _ (unset magic header : List ℕ) (floats : List Float) (eight : length magic ≡ 8)
    (short : length header < 2 ^ 16) where
  abbrev front : List ℕ
  front = magic ++ le_bytes 2 (length header)

  abbrev body : List ℕ
  body = write_words 4 floats

  npy_bytes-split : npy_bytes magic header floats ≡ front ++ (header ++ body)
  unfolding npy_bytes
  npy_bytes-split = sym (append_assoc magic (le_bytes 2 (length header)) (header ++ body))

  length-front : length front ≡ 10
  length-front =
      omega
        (arith, length-append magic (le_bytes 2 (length header)), length-le_bytes 2 (length header))

  header_length-npy_bytes :
      header_length (prologue_of unset (npy_bytes magic header floats)) ≡ length header
  unfolding header_length prologue_of
  header_length-npy_bytes =
      let rest = drop (length front) unset in
      rw
        (
          npy_bytes-split,
          take-prefix 10 front (header ++ body) length-front,
          append_assoc magic (le_bytes 2 (length header)) rest,
          drop-append 8 magic (le_bytes 2 (length header) ++ rest) eight,
          take-prefix 2 (le_bytes 2 (length header)) rest (length-le_bytes 2 (length header)),
        )
        (of_le_bytes-le_bytes 2 (length header) (omega arith))

  length-npy_bytes : length (npy_bytes magic header floats) ≡ 10 + length header + 4 * length floats
  length-npy_bytes = rw npy_bytes-split (
      omega (
        arith,
        length-front,
        length-append front (header ++ body),
        length-append header body,
        length-write_words 4 floats,
      ))

  drop-npy_bytes : drop (10 + length header) (npy_bytes magic header floats) ≡ body
  drop-npy_bytes =
      rw (npy_bytes-split, ← append_assoc front header body)
        (drop-append (10 + length header) (front ++ header) body
          (omega (arith, length-append front header, length-front)))

  -- A file in the format, of fewer than 2^61 elements that are 32-bit words, loads as exactly its
  -- elements, in rows of the dimension that was asked for, or of 384.
  pub load_npy-npy_bytes :
      (d : ℕ)
      → All (Fits 4) floats
      → length floats < 2 ^ 61
      → load_npy unset (some (npy_bytes magic header floats)) d
        ≡ loaded floats (length floats / row_size d) (row_size d)
  unfolding load_npy in_rows
  load_npy-npy_bytes d fit few =
      let size : (10 + length header + 4 * length floats + 2 ^ 64 - (10 + length header)) % 2 ^ 64
          ≡ 4 * length floats =
        omega arith in
      let count : 4 * length floats / 4 ≡ length floats = omega arith in
      let small : leb (2 ^ 61) (length floats) ≡ false = ground arith in
      let even : ltb (4 * length floats) (4 * length floats) ≡ false = ground arith in
      rw
        (
          header_length-npy_bytes,
          length-npy_bytes,
          size,
          count,
          small,
          even,
          drop-npy_bytes,
          ← append-nil body,
          read_words-write_words 4 floats [] fit,
        )
        refl

-- A file whose elements do not fill whole words is read past the end of the vector.
pub load_npy_ragged :
    (unset file : List ℕ) (d rest : ℕ)
    → length file ≡ 10 + header_length (prologue_of unset file) + rest
    → rest < 2 ^ 62
    → rest % 4 ≢ 0
    → load_npy unset (some file) d ≡ overrun
unfolding load_npy
load_npy_ragged unset file d rest size few odd =
    let offset = 10 + header_length (prologue_of unset file) in
    let e : (length file + 2 ^ 64 - offset) % 2 ^ 64 ≡ rest = omega arith in
    let small : leb (2 ^ 61) (rest / 4) ≡ false = ground arith in
    let short : ltb (4 * (rest / 4)) rest ≡ true = ground arith in rw (e, small, short) refl
