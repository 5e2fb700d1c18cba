-- ===== src/Cli/Options.antt =====
-- src/cli.cpp: the argument loop of `main`.
use neuraldatabase.Prelude.{
  ℤ, pos, ℕ, ◌<◌, ◌^◌, ◌≡◌, refl, Bool, true, false, Option, none, some, List, [], ◌∷◌, ◌++◌, ◌==◌,
  if◌then◌else◌,
}
use neuraldatabase.Bytes.{◌>>=◌}
use neuraldatabase.Filter.{Text, text_eq}
use neuraldatabase.Cli.Number.{
  codes, stoul, stoi, decimal, show_int, IsInt, stoul-decimal, stoi-show_int,
}

-- The variables that the loop sets. `dim` and `n` are a size_t.
pub record Options : Type 0 where
  pub emb_path : Text
  pub query_path : Text
  pub dim : ℕ
  pub n : ℕ
  pub k : ℤ
  pub is_bench : Bool

abbrev pub default_options : Options
default_options = record {
  emb_path = [];
  query_path = [];
  dim = 0;
  n = 100000;
  k = pos 10;
  is_bench = false;
}

-- `a.rfind(prefix, 0) == 0`, and `a.substr` from its end
unfoldable pub strip_prefix : Text → Text → Option Text
strip_prefix [] a = some a
strip_prefix (p ∷ ps) [] = none
strip_prefix (p ∷ ps) (c ∷ cs) = let rest = strip_prefix ps cs in if p == c then rest else none

-- One argument. `none` is an exception of std::stoul or std::stoi; an argument that is none of
-- these is passed over.
unfoldable pub parse_arg : Options → Text → Option Options
parse_arg o a =
    if text_eq a (codes "bench")
    then some (record o { is_bench = true })
    else elim (strip_prefix (codes "--embeddings=") a) [
      | some path ↦ some (record o { emb_path = path })
      | none ↦ elim (strip_prefix (codes "--queries=") a) [
        | some path ↦ some (record o { query_path = path })
        | none ↦ elim (strip_prefix (codes "--dim=") a) [
          | some text ↦ do dim ← stoul text; some (record o { dim = dim })
          | none ↦ elim (strip_prefix (codes "--n=") a) [
            | some text ↦ do n ← stoul text; some (record o { n = n })
            | none ↦ elim (strip_prefix (codes "--k=") a) [
              | some text ↦ do k ← stoi text; some (record o { k = k })
              | none ↦ some o
            ]
          ]
        ]
      ]
    ]

unfoldable pub parse_args : Options → List Text → Option Options
parse_args o [] = some o
parse_args o (a ∷ rest) = do o' ← parse_arg o a; parse_args o' rest

-- Options as arguments, one for each.
unfoldable pub show_options : Options → List Text
show_options o =
    (codes "--embeddings=" ++ o.emb_path)
    ∷ (codes "--queries=" ++ o.query_path)
    ∷ (codes "--dim=" ++ decimal o.dim)
    ∷ (codes "--n=" ++ decimal o.n)
    ∷ (codes "--k=" ++ show_int o.k)
    ∷ (if o.is_bench then codes "bench" else codes "--")
    ∷ []

-- From whatever options, the arguments that spell options in range set exactly these; only `bench`
-- cannot be taken back.
pub parse_args-show_options :
    (start o : Options)
    → o.dim < 2 ^ 64
    → o.n < 2 ^ 64
    → IsInt o.k
    → start.is_bench ≡ false
    → parse_args start (show_options o) ≡ some o
unfolding parse_args parse_arg show_options strip_prefix text_eq
parse_args-show_options start o hd hn hk hb =
    elim (o.is_bench)
      as (λ b.
        parse_args start (show_options (record o { is_bench = b }))
        ≡ some (record o { is_bench = b })) [
          | true ↦ rw (stoul-decimal o.dim hd, stoul-decimal o.n hn, stoi-show_int o.k hk) refl
          | false ↦ rw (stoul-decimal o.dim hd, stoul-decimal o.n hn, stoi-show_int o.k hk, hb) refl
        ]
