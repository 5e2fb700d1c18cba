-- ===== src/Bindings/RoundTrip.antt =====
-- python/bindings.cpp: metadata come back as they were given.
use neuraldatabase.Prelude.{
  ℕ, ◌≡◌, refl, ap, ◌∙◌, inl, inr, Bool, true, false, ℤ, some, List, [], ◌∷◌, All, Bool-cases,
}
use neuraldatabase.Filter.{Text, Json, text_eq, lookup}
use neuraldatabase.Bindings.Values.{
  PyValue, py_bool, py_int, py_float, py_str, py_dict, PyDict, no_entries, entry, JsonValues,
  fits_int64, assign_all, py_to_json, py_entries, dict_to_json, value_of, json_meta_to_dict,
}
use neuraldatabase.Bindings.Dicts.{
  or_else-none, map_option, AreDistinct, lookup-assign_all, map_values, lookup-map_values,
  map_values-AreDistinct,
}

abbrev pub entries_of : PyDict → List (Text × PyValue)
entries_of no_entries = []
entries_of (entry key v rest) = (key, v) ∷ entries_of rest

-- None, a list, a dict and an object of another type come back as text.
abbrev pub IsScalar : PyValue → Type 0
IsScalar (py_bool b) = Unit
IsScalar (py_int n) = fits_int64 n ≡ true
IsScalar (py_float x) = Unit
IsScalar (py_str t) = Unit
IsScalar _ = ⊥

module _ {J : Type 0} (values : JsonValues J) (json : Json J) where
  -- The library tells the values apart that it is given, and gives them back.
  pub record TellsApart : Type 0 where
    pub string :
        (t : Text)
        → (json.is_string (values.of_string t) ≡ true) × (json.get_string (values.of_string t) ≡ t)
    pub integer :
        (n : ℤ)
        → (json.is_string (values.of_int n) ≡ false)
          × (values.is_integer (values.of_int n) ≡ true)
          × (values.get_int (values.of_int n) ≡ n)
    pub float :
        (x : ℕ)
        → (json.is_string (values.of_double x) ≡ false)
          × (values.is_integer (values.of_double x) ≡ false)
          × (values.is_float (values.of_double x) ≡ true)
          × (json.get_double (values.of_double x) ≡ x)
    pub boolean :
        (b : Bool)
        → (json.is_string (values.of_bool b) ≡ false)
          × (values.is_integer (values.of_bool b) ≡ false)
          × (values.is_float (values.of_bool b) ≡ false)
          × (values.is_boolean (values.of_bool b) ≡ true)
          × (values.get_bool (values.of_bool b) ≡ b)

  abbrev pub json_of : PyValue → J
  json_of (py_bool b) = values.of_bool b
  json_of (py_int n) = values.of_int n
  json_of (py_float x) = values.of_double x
  json_of (py_str t) = values.of_string t
  json_of _ = values.null

  py_to_json-IsScalar : (v : PyValue) → IsScalar v → py_to_json values v ≡ some (json_of v)
  unfolding py_to_json
  py_to_json-IsScalar (py_bool b) h = refl
  py_to_json-IsScalar (py_int n) h = rw h refl
  py_to_json-IsScalar (py_float x) h = refl
  py_to_json-IsScalar (py_str t) h = refl
  py_to_json-IsScalar _ h = absurd h

  value_of-json_of : TellsApart → (v : PyValue) → IsScalar v → value_of values json (json_of v) ≡ v
  unfolding value_of
  value_of-json_of law (py_bool b) h = let l = law.boolean b in rw (l.0, l.1, l.2, l.3, l.4) refl
  value_of-json_of law (py_int n) h = let l = law.integer n in rw (l.0, l.1, l.2) refl
  value_of-json_of law (py_float x) h = let l = law.float x in rw (l.0, l.1, l.2, l.3) refl
  value_of-json_of law (py_str t) h = let l = law.string t in rw (l.0, l.1) refl
  value_of-json_of law _ h = absurd h

  -- An object that is printed is parsed as an object with the same members.
  pub record ReadsBack (es : List (Text × J)) : Type 0 where
    pub back : J
    pub parsed : json.parse (json.dump (values.of_object es)) ≡ some back
    pub unique : AreDistinct (json.items back)
    pub same : (key : Text) → lookup key (json.items back) ≡ lookup key es

  py_entries-IsScalar :
      (d : PyDict)
      → All (λ e. IsScalar e.1) (entries_of d)
      → py_entries values d ≡ some (map_values json_of (entries_of d))
  unfolding py_entries
  py_entries-IsScalar no_entries h = refl
  py_entries-IsScalar (entry key v rest) h =
      rw (py_to_json-IsScalar v h.0, py_entries-IsScalar rest h.1) refl

  scalars_back :
      TellsApart
      → (key : Text) (es : List (Text × PyValue)) → All (λ e. IsScalar e.1) es
      → map_option (value_of values json) (lookup key (map_values json_of es)) ≡ lookup key es
  unfolding lookup
  scalars_back law key [] h = refl
  scalars_back law key ((k, v) ∷ es) h = elim (Bool-cases (text_eq k key)) [
    | inl t ↦ rw (t, value_of-json_of law v h.0) refl
    | inr t ↦ rw t (scalars_back law key es h.1)
  ]

  -- Metadata with distinct keys, whose values are booleans, integers of 64 bits, floats and strings,
  -- are stored as a text that is given back as a dictionary with the same value for every key, if
  -- the JSON library tells these values apart and reads back the object that it printed.
  pub json_meta_to_dict-dict_to_json :
      (d : PyDict)
      → AreDistinct (entries_of d)
      → All (λ e. IsScalar e.1) (entries_of d)
      → TellsApart
      → ReadsBack (assign_all [] (map_values json_of (entries_of d)))
      → (text : Text) × (dict_to_json values json (py_dict d) ≡ some text)
        × ((key : Text)
            → lookup key (json_meta_to_dict values json text) ≡ lookup key (entries_of d))
  unfolding dict_to_json py_to_json json_meta_to_dict lookup
  json_meta_to_dict-dict_to_json d distinct scalars law r =
      let es = map_values json_of (entries_of d) in
      let of_items = λ (key : Text).
        lookup-assign_all key [] (map_values (value_of values json) (json.items r.back))
          (map_values-AreDistinct (value_of values json) (json.items r.back) r.unique) in
      let of_object = λ (key : Text).
        lookup-assign_all key [] es (map_values-AreDistinct json_of (entries_of d) distinct) in
      (
        json.dump (values.of_object (assign_all [] es)),
        rw (py_entries-IsScalar d scalars) refl,
        λ key.
            rw (r.parsed, json_meta_to_dict)
              (of_items key
                ∙ or_else-none (lookup key (map_values (value_of values json) (json.items r.back)))
                ∙ lookup-map_values (value_of values json) key (json.items r.back)
                ∙ ap (λ o. map_option (value_of values json) o)
                    (r.same key ∙ of_object key ∙ or_else-none (lookup key es))
                ∙ scalars_back law key (entries_of d) scalars),
      )
