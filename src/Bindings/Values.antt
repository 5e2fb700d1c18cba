-- ===== src/Bindings/Values.antt =====
-- python/bindings.cpp: the conversions between Python objects and JSON values, `get_ptr`, and the
-- methods of the class Index that take or make such values.
use neuraldatabase.Prelude.{
  ℕ, ◌^◌, Bool, ◌||◌, ℤ, pos, negsuc, Option, none, some, List, [], ◌∷◌, map, ltb, ◌==◌,
  if◌then◌else◌,
}
use neuraldatabase.Bytes.{◌>>=◌}
use neuraldatabase.Float.{Float}
use neuraldatabase.Kernels.{Arith}
use neuraldatabase.Filter.{Text, Json, text_eq, assign}
use neuraldatabase.Hnsw.State
use neuraldatabase.Hnsw.State.{HnswConfig, HnswIndex}
use neuraldatabase.Hnsw.Layer.{Scratch}
use neuraldatabase.Hnsw.Insert
use neuraldatabase.Bindings.{Hit, search}

-- A Python object, as far as the code tells objects apart. A str is its UTF-8 bytes, a float its
-- IEEE pattern, and a key of a dict is given as `str(key)`. `other` is an object of another type,
-- with what `cast<std::string>` makes of it, or nothing where that throws.
mutual
  pub data PyValue : Type 0 where
    py_none : PyValue
    py_bool : Bool → PyValue
    py_int : ℤ → PyValue
    py_float : ℕ → PyValue
    py_str : Text → PyValue
    py_list : PyList → PyValue
    py_dict : PyDict → PyValue
    py_other : Option Text → PyValue

  pub data PyList : Type 0 where
    no_items : PyList
    item : PyValue → PyList → PyList

  pub data PyDict : Type 0 where
    no_entries : PyDict
    entry : Text → PyValue → PyDict → PyDict

-- What the conversions call of nlohmann::json beside `Json`.
pub record JsonValues (J : Type 0) : Type 0 where
  pub null : J
  pub of_bool : Bool → J
  pub of_int : ℤ → J
  pub of_double : ℕ → J
  pub of_string : Text → J
  pub of_array : List J → J
  pub of_object : List (Text × J) → J
  pub is_integer : J → Bool
  pub is_float : J → Bool
  pub is_boolean : J → Bool
  pub get_int : J → ℤ
  pub get_bool : J → Bool

-- `cast<int64_t>` throws where the number does not fit.
abbrev pub fits_int64 : ℤ → Bool
fits_int64 (pos n) = ltb n (2 ^ 63)
fits_int64 (negsuc n) = ltb n (2 ^ 63)

-- `j[key] = value` for each entry
unfoldable pub assign_all {ℓ} : {V : Type ℓ} → List (Text × V) → List (Text × V) → List (Text × V)
assign_all m [] = m
assign_all m ((k, v) ∷ rest) = assign_all (assign k v m) rest

module _ {J : Type 0} (values : JsonValues J) where
  -- `none` where a cast throws
  unfoldable mutual
    pub py_to_json : PyValue → Option J
    py_to_json py_none = some values.null
    py_to_json (py_bool b) = some (values.of_bool b)
    py_to_json (py_int n) = if fits_int64 n then some (values.of_int n) else none
    py_to_json (py_float x) = some (values.of_double x)
    py_to_json (py_str t) = some (values.of_string t)
    py_to_json (py_list items) = do js ← py_items items; some (values.of_array js)
    py_to_json (py_dict entries) = do
      es ← py_entries entries
      some (values.of_object (assign_all [] es))
    py_to_json (py_other none) = none
    py_to_json (py_other (some t)) = some (values.of_string t)

    pub py_items : PyList → Option (List J)
    py_items no_items = some []
    py_items (item v rest) = do j ← py_to_json v; js ← py_items rest; some (j ∷ js)

    pub py_entries : PyDict → Option (List (Text × J))
    py_entries no_entries = some []
    py_entries (entry key v rest) = do j ← py_to_json v; es ← py_entries rest; some ((key, j) ∷ es)

  module _ (json : Json J) where
    -- "{}" for None
    unfoldable pub dict_to_json : PyValue → Option Text
    dict_to_json py_none = some (123 ∷ 125 ∷ [])
    dict_to_json obj = do j ← py_to_json obj; some (json.dump j)

    -- the value of one item of the parsed metadata
    unfoldable pub value_of : J → PyValue
    value_of v =
        if json.is_string v
        then py_str (json.get_string v)
        else if values.is_integer v
        then py_int (values.get_int v)
        else if values.is_float v
        then py_float (json.get_double v)
        else if values.is_boolean v
        then py_bool (values.get_bool v)
        else py_str (json.dump v)

    -- The dictionary; the whole text under "_raw" where it does not parse.
    unfoldable pub json_meta_to_dict : Text → List (Text × PyValue)
    json_meta_to_dict meta = elim (json.parse meta) [
      | none ↦ (95 ∷ 114 ∷ 97 ∷ 119 ∷ [], py_str meta) ∷ []
      | some j ↦ assign_all [] (map (λ x. (x.0, value_of x.1)) (json.items j))
    ]

-- A numpy array: its shape, and the floats that stand in memory from its pointer on. These are its
-- elements only if its strides leave no gap, which the code does not look at.
pub record NpArray : Type 0 where
  pub shape : List ℕ
  pub memory : List Float

-- `none` is std::invalid_argument.
unfoldable pub get_ptr : NpArray → (expected_dim : ℕ) → Option (List Float)
get_ptr arr expected_dim = elim arr.shape [
  | n ∷ [] ↦ if n == expected_dim then some arr.memory else none
  | _ ↦ none
]

-- "cosine" and "l2"; `none` is std::invalid_argument
unfoldable pub new_index :
    (dim : ℕ) → (metric : Text) → (m ef_construction ef_search : ℕ) → Option HnswIndex
new_index dim metric m ef_construction ef_search =
    if text_eq metric (99 ∷ 111 ∷ 115 ∷ 105 ∷ 110 ∷ 101 ∷ []) || text_eq metric (108 ∷ 50 ∷ [])
    then some (
        State.new_index dim
          (record { m = m; ef_construction = ef_construction; ef_search = ef_search }))
    else none

-- Index.insert: nothing is inserted where the array or the metadata are refused.
unfoldable pub insert :
    {J : Type 0}
    → JsonValues J
    → Json J
    → Arith Float
    → HnswIndex
    → (id : ℕ) → NpArray
    → PyValue
    → (level : ℕ) → Scratch
    → Option (HnswIndex × Scratch)
insert values json ops index id arr metadata level s = do
  vec ← get_ptr arr index.dim
  text ← dict_to_json values json metadata
  some (Insert.insert ops index id vec text level s)

-- A result of Index.search as the dict that is made of it.
pub record PyHit : Type 0 where
  pub id : ℕ
  pub score : Float
  pub metadata : List (Text × PyValue)

unfoldable pub hit_dict : {J : Type 0} → JsonValues J → Json J → Hit → PyHit
hit_dict values json hit = record {
  id = hit.id;
  score = hit.score;
  metadata = json_meta_to_dict values json hit.metadata;
}

-- Index.search: `none` where the array, a value of the condition or the condition are refused.
unfoldable pub search_call :
    {J : Type 0}
    → JsonValues J
    → Json J
    → Arith Float
    → HnswIndex
    → NpArray
    → (k : ℕ) → (where_obj : PyValue) → Scratch
    → Option (List PyHit)
search_call values json ops index arr k py_none s = do
  query ← get_ptr arr index.dim
  hits ← search json ops index query k none s
  some (map (hit_dict values json) hits)
search_call values json ops index arr k where_obj s = do
  query ← get_ptr arr index.dim
  where_json ← py_to_json values where_obj
  hits ← search json ops index query k (some where_json) s
  some (map (hit_dict values json) hits)
