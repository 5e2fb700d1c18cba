-- ===== src/Tests/Metadata.antt =====
-- Metadata through python/bindings.cpp, with a JSON library that always parses the same object.
use neuraldatabase.Prelude.{
  ℕ, ◌≡◌, refl, Bool, true, false, ℤ, pos, negsuc, some, List, [], ◌∷◌, arith,
}
use neuraldatabase.Filter.{Text, Json, text_eq, assign, lookup}
use neuraldatabase.Bindings.Values.{
  PyDict, py_int, py_str, py_dict, no_entries, entry, JsonValues, assign_all, dict_to_json,
  json_meta_to_dict,
}
use neuraldatabase.Bindings.Dicts.{map_values}
use neuraldatabase.Bindings.RoundTrip.{
  entries_of, json_of, TellsApart, ReadsBack, json_meta_to_dict-dict_to_json,
}

pub data Value : Type 0 where
  v_null v_array : Value
  v_bool : Bool → Value
  v_int : ℤ → Value
  v_double : ℕ → Value
  v_string : Text → Value

mutual
  pub data Tree : Type 0 where
    leaf : Value → Tree
    object : Members → Tree

  pub data Members : Type 0 where
    no_members : Members
    member : Text → Tree → Members → Members

members : List (Text × Tree) → Members
members [] = no_members
members ((k, v) ∷ rest) = member k v (members rest)

members_of : Members → List (Text × Tree)
members_of no_members = []
members_of (member k v rest) = (k, v) ∷ members_of rest

pub values : JsonValues Tree
unfolding members
values = record {
  null = leaf v_null;
  of_bool = λ b. leaf (v_bool b);
  of_int = λ n. leaf (v_int n);
  of_double = λ x. leaf (v_double x);
  of_string = λ t. leaf (v_string t);
  of_array = λ js. leaf v_array;
  of_object = λ es. object (members es);
  is_integer = λ j. elim j [ leaf (v_int n) ↦ true | _ ↦ false ];
  is_float = λ j. elim j [ leaf (v_double x) ↦ true | _ ↦ false ];
  is_boolean = λ j. elim j [ leaf (v_bool b) ↦ true | _ ↦ false ];
  get_int = λ j. elim j [ leaf (v_int n) ↦ n | _ ↦ pos 0 ];
  get_bool = λ j. elim j [ leaf (v_bool b) ↦ b | _ ↦ false ];
}

-- `{"b": -3, "a": "x"}`, whose members the library keeps in the order of their keys
sorted : Tree
sorted = object (
    member (97 ∷ []) (leaf (v_string (120 ∷ [])))
      (member (98 ∷ []) (leaf (v_int (negsuc 2))) no_members))

pub json : Json Tree
unfolding members_of sorted
json = record {
  is_number = λ j. elim j [ leaf (v_int n) ↦ true | leaf (v_double x) ↦ true | _ ↦ false ];
  is_string = λ j. elim j [ leaf (v_string t) ↦ true | _ ↦ false ];
  is_array = λ j. elim j [ leaf v_array ↦ true | _ ↦ false ];
  is_object = λ j. elim j [ object m ↦ true | _ ↦ false ];
  get_double = λ j. elim j [ leaf (v_double x) ↦ x | _ ↦ 0 ];
  get_string = λ j. elim j [ leaf (v_string t) ↦ t | _ ↦ [] ];
  dump = λ j. elim j [ object m ↦ 123 ∷ [] | _ ↦ [] ];
  elements = λ j. [];
  items = λ j. elim j [ object m ↦ members_of m | _ ↦ [] ];
  parse = λ text. some sorted;
}

metadata : PyDict
metadata = entry (98 ∷ []) (py_int (negsuc 2)) (entry (97 ∷ []) (py_str (120 ∷ [])) no_entries)

program : Unit {0}
unfolding values json metadata text_eq assign assign_all lookup
program = tt

values-TellsApart : TellsApart values json
unfolding program
values-TellsApart = record {
  string = λ t. (refl, refl);
  integer = λ n. (refl, refl, refl);
  float = λ x. (refl, refl, refl, refl);
  boolean = λ b. (refl, refl, refl, refl, refl);
}

same_members :
    (key : Text)
    → lookup key (json.items sorted)
      ≡ lookup key (assign_all [] (map_values (json_of values json) (entries_of metadata)))
unfolding program
same_members [] = refl
same_members (c ∷ cs) = ground arith

metadata-ReadsBack :
    ReadsBack values json (assign_all [] (map_values (json_of values json) (entries_of metadata)))
unfolding program
metadata-ReadsBack = record {
  back = sorted;
  parsed = refl;
  unique = ((refl, tt), (tt, tt));
  same = same_members;
}

json_meta_to_dict-dict_to_json_example :
    (text : Text) × (dict_to_json values json (py_dict metadata) ≡ some text)
    × ((key : Text)
        → lookup key (json_meta_to_dict values json text) ≡ lookup key (entries_of metadata))
unfolding program
json_meta_to_dict-dict_to_json_example =
    json_meta_to_dict-dict_to_json values json metadata ((refl, tt), (tt, tt)) (refl, (tt, tt))
      values-TellsApart metadata-ReadsBack
