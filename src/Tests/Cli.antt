-- ===== src/Tests/Cli.antt =====
-- Runs of src/cli.cpp and src/storage.cpp.
use neuraldatabase.Prelude.{
  negsuc, ℕ, ◌/◌, ◌≡◌, refl, true, none, some, List, [], ◌∷◌, ◌++◌, arith, length,
}
use neuraldatabase.Bytes.{le_bytes, read_int, fread, of_le_bytes, write_words, read_words}
use neuraldatabase.Filter.{text_eq}
use neuraldatabase.Cli.Number.{
  codes, is_digit, skip_blanks, take_sign, read_digits, starts_digit, read_number, to_unsigned,
  to_int, stoul, stoi, decimal_from, decimal, show_int,
}
use neuraldatabase.Cli.Options.{
  Options, default_options, strip_prefix, parse_arg, parse_args, show_options,
  parse_args-show_options,
}
use neuraldatabase.Cli.Npy.{
  overrun, loaded, prologue_of, header_length, row_size, in_rows, load_npy, npy_bytes,
  load_npy-npy_bytes,
}
use neuraldatabase.Storage.{open_reader, close_reader, write_raw, write_calls}
use neuraldatabase.Storage.Reading.{IsPrefix, write_calls-IsPrefix}

program : Unit {0}
unfolding text_eq is_digit skip_blanks take_sign read_digits starts_digit read_number to_unsigned
    to_int stoul stoi decimal_from decimal show_int strip_prefix parse_arg parse_args show_options
    le_bytes read_int fread of_le_bytes write_words read_words prologue_of header_length row_size
    in_rows load_npy npy_bytes open_reader close_reader write_raw write_calls
program = tt

-- `neuraldb bench --k=-3 --dim=8x`
some_args :
    parse_args default_options (codes "bench" ∷ codes "--k=-3" ∷ codes "--dim= 8x" ∷ [])
    ≡ some (record default_options { is_bench = true; k = negsuc 2; dim = 8 })
unfolding program
some_args = refl

bad_number : parse_args default_options (codes "--n=many" ∷ []) ≡ none
unfolding program
bad_number = refl

-- The spelling of the usage text, with a blank, is passed over.
with_blank :
    parse_args default_options (codes "--embeddings" ∷ codes "a.npy" ∷ []) ≡ some default_options
unfolding program
with_blank = refl

chosen : Options
chosen = record {
  emb_path = codes "a.npy";
  query_path = [];
  dim = 128;
  n = 5000;
  k = negsuc 4;
  is_bench = true;
}

parse_args-show_options_example : parse_args default_options (show_options chosen) ≡ some chosen
unfolding chosen
parse_args-show_options_example =
    parse_args-show_options default_options chosen (omega arith) (omega arith) (omega arith) refl

magic : List ℕ
magic = 147 ∷ 78 ∷ 85 ∷ 77 ∷ 80 ∷ 89 ∷ 1 ∷ 0 ∷ []

matrix : List ℕ
matrix = 5 ∷ 6 ∷ 7 ∷ 8 ∷ []

-- two bytes too many
ragged : load_npy [] (some (npy_bytes magic (32 ∷ 10 ∷ []) matrix ++ 1 ∷ 2 ∷ [])) 2 ≡ overrun
unfolding program magic matrix
ragged = refl

load_npy-npy_bytes_example :
    load_npy [] (some (npy_bytes magic (32 ∷ 10 ∷ []) matrix)) 2
    ≡ loaded matrix (length matrix / row_size 2) (row_size 2)
unfolding magic matrix
load_npy-npy_bytes_example =
    load_npy-npy_bytes [] magic (32 ∷ 10 ∷ []) matrix refl (omega arith) 2 (omega arith)
      (omega arith)

-- The third call is not made.
write_calls-IsPrefix_example :
    (n : ℕ) × IsPrefix []
      (1 ∷ 2 ∷ 3 ∷ 4 ∷ 5 ∷ [])
      n
      (write_calls ((9, 1 ∷ 2 ∷ []) ∷ (1, 3 ∷ 4 ∷ []) ∷ (9, 5 ∷ []) ∷ []) (record { written = [] }))
write_calls-IsPrefix_example =
    write_calls-IsPrefix ((9, 1 ∷ 2 ∷ []) ∷ (1, 3 ∷ 4 ∷ []) ∷ (9, 5 ∷ []) ∷ [])
      (record { written = [] })
