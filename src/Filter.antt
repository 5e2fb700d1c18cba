-- ===== src/Filter.antt =====
-- src/filter.cpp, include/filter.hpp: conditions on metadata. The JSON library is the record `Json`
-- over the type of its values; a std::string is its list of bytes, a double its IEEE pattern, and a
-- map the list of its entries in the order in which it is iterated.
pub mod Compare
pub mod Meaning
pub mod Clause
pub mod Evaluate
use neuraldatabase.Prelude.{
  ℕ, Bool, true, false, not, ◌&&◌, Option, none, some, List, [], ◌∷◌, ltb, ◌==◌, if◌then◌else◌,
}
use neuraldatabase.Bytes.{◌>>=◌}
use neuraldatabase.Float.{ieee_lt, binary64}

abbrev pub Text : Type 0
Text = List ℕ

-- What the code calls of nlohmann::json. `parse` is `none` where it throws.
pub record Json (J : Type 0) : Type 0 where
  pub is_number : J → Bool
  pub is_string : J → Bool
  pub is_array : J → Bool
  pub is_object : J → Bool
  pub get_double : J → ℕ
  pub get_string : J → Text
  pub dump : J → Text
  pub elements : J → List J
  pub items : J → List (Text × J)
  pub parse : Text → Option J

-- enum class FilterOp
pub data FilterOp : Type 0 where
  op_eq op_ne op_gt op_gte op_lt op_lte op_in op_nin : FilterOp

pub record FieldFilter (J : Type 0) : Type 0 where
  pub op : FilterOp
  pub value : J

abbrev pub WhereClause : Type 0 → Type 0
WhereClause J = List (Text × List (FieldFilter J))

-- `==` and `<` of std::string
unfoldable pub text_eq : Text → Text → Bool
text_eq [] [] = true
text_eq [] (y ∷ ys) = false
text_eq (x ∷ xs) [] = false
text_eq (x ∷ xs) (y ∷ ys) = x == y && text_eq xs ys

unfoldable pub text_lt : Text → Text → Bool
text_lt [] [] = false
text_lt [] (y ∷ ys) = true
text_lt (x ∷ xs) [] = false
text_lt (x ∷ xs) (y ∷ ys) =
    let rest = text_lt xs ys in if ltb x y then true else if ltb y x then false else rest

-- `find` of a map
unfoldable pub lookup {ℓ} : {V : Type ℓ} → Text → List (Text × V) → Option V
lookup key [] = none
lookup key ((k, v) ∷ rest) = let later = lookup key rest in if text_eq k key then some v else later

-- `result[key] = value`: a new key stands last
unfoldable pub assign {ℓ} : {V : Type ℓ} → Text → V → List (Text × V) → List (Text × V)
assign key value [] = (key, value) ∷ []
assign key value ((k, v) ∷ rest) =
    let later = assign key value rest in if text_eq k key then (k, value) ∷ rest else (k, v) ∷ later

-- "$eq" and so on
unfoldable pub op_map : List (Text × FilterOp)
op_map =
    (36 ∷ 101 ∷ 113 ∷ [], op_eq)
    ∷ (36 ∷ 110 ∷ 101 ∷ [], op_ne)
    ∷ (36 ∷ 103 ∷ 116 ∷ [], op_gt)
    ∷ (36 ∷ 103 ∷ 116 ∷ 101 ∷ [], op_gte)
    ∷ (36 ∷ 108 ∷ 116 ∷ [], op_lt)
    ∷ (36 ∷ 108 ∷ 116 ∷ 101 ∷ [], op_lte)
    ∷ (36 ∷ 105 ∷ 110 ∷ [], op_in)
    ∷ (36 ∷ 110 ∷ 105 ∷ 110 ∷ [], op_nin)
    ∷ []

-- The `int` of `json_compare`: -1, 0 or 1.
pub data Compared : Type 0 where
  below equal above : Compared

-- the three lines that compare two values by `<`
unfoldable pub compare_by : {A : Type 0} → (A → A → Bool) → A → A → Compared
compare_by lt a b = if lt a b then below else if lt b a then above else equal

module _ {J : Type 0} (json : Json J) where
  unfoldable pub json_compare : J → J → Compared
  json_compare field_val filter_val =
      if json.is_number field_val && json.is_number filter_val
      then compare_by (ieee_lt binary64) (json.get_double field_val) (json.get_double filter_val)
      else if json.is_string field_val && json.is_string filter_val
      then compare_by text_lt (json.get_string field_val) (json.get_string filter_val)
      else if text_eq (json.dump field_val) (json.dump filter_val)
      then equal
      else below

  abbrev pub is_equal : Compared → Bool
  is_equal below = false
  is_equal equal = true
  is_equal above = false

  abbrev pub is_above : Compared → Bool
  is_above below = false
  is_above equal = false
  is_above above = true

  abbrev pub is_below : Compared → Bool
  is_below below = true
  is_below equal = false
  is_below above = false

  -- the loop of `$in`
  unfoldable pub any_equal : J → List J → Bool
  any_equal field_val [] = false
  any_equal field_val (elem ∷ elems) =
      let later = any_equal field_val elems in
      if is_equal (json_compare field_val elem) then true else later

  -- the loop of `$nin`
  unfoldable pub none_equal : J → List J → Bool
  none_equal field_val [] = true
  none_equal field_val (elem ∷ elems) =
      let later = none_equal field_val elems in
      if is_equal (json_compare field_val elem) then false else later

  unfoldable pub apply_op : J → FilterOp → J → Bool
  apply_op field_val op_eq filter_val = is_equal (json_compare field_val filter_val)
  apply_op field_val op_ne filter_val = not (is_equal (json_compare field_val filter_val))
  apply_op field_val op_gt filter_val = is_above (json_compare field_val filter_val)
  apply_op field_val op_gte filter_val = not (is_below (json_compare field_val filter_val))
  apply_op field_val op_lt filter_val = is_below (json_compare field_val filter_val)
  apply_op field_val op_lte filter_val = not (is_above (json_compare field_val filter_val))
  apply_op field_val op_in filter_val =
      if json.is_array filter_val then any_equal field_val (json.elements filter_val) else false
  apply_op field_val op_nin filter_val =
      if json.is_array filter_val then none_equal field_val (json.elements filter_val) else true

  -- the inner loop of `parse_where`, behind the filters that it has; `none` where it throws
  unfoldable pub parse_ops : List (Text × J) → Option (List (FieldFilter J))
  parse_ops [] = some []
  parse_ops ((op_key, val) ∷ rest) = do
    op ← lookup op_key op_map
    filters ← parse_ops rest
    some (record { op = op; value = val } ∷ filters)

  unfoldable pub parse_spec : J → Option (List (FieldFilter J))
  parse_spec spec =
      if json.is_object spec
      then parse_ops (json.items spec)
      else some (record { op = op_eq; value = spec } ∷ [])

  -- the loop over the fields
  unfoldable pub parse_fields : List (Text × J) → WhereClause J → Option (WhereClause J)
  parse_fields [] result = some result
  parse_fields ((field, spec) ∷ rest) result = do
    filters ← parse_spec spec
    parse_fields rest (assign field filters result)

  unfoldable pub parse_where : J → Option (WhereClause J)
  parse_where where_json =
      if json.is_object where_json then parse_fields (json.items where_json) [] else some []

  -- the loop over the filters of a field
  unfoldable pub all_ops : J → List (FieldFilter J) → Bool
  all_ops field_val [] = true
  all_ops field_val (ff ∷ filters) =
      let later = all_ops field_val filters in
      if apply_op field_val ff.op ff.value then later else false

  -- the loop over the fields
  unfoldable pub all_fields : J → WhereClause J → Bool
  all_fields meta [] = true
  all_fields meta ((field, filters) ∷ rest) =
      let later = all_fields meta rest in
      elim (lookup field (json.items meta)) [
        | none ↦ false
        | some field_val ↦ if all_ops field_val filters then later else false
      ]

  unfoldable pub evaluate_filter : Text → WhereClause J → Bool
  evaluate_filter metadata_json [] = true
  evaluate_filter metadata_json (entry ∷ rest) = elim (json.parse metadata_json) [
    | none ↦ false
    | some meta ↦ if json.is_object meta then all_fields meta (entry ∷ rest) else false
  ]
