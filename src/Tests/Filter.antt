-- ===== src/Tests/Filter.antt =====
-- Runs of src/filter.cpp, on a small JSON of numbers, texts, lists and objects.
use neuraldatabase.Prelude.{ℕ, ◌≡◌, refl, Bool, true, false, not, Option, none, some, List, [], ◌∷◌}
use neuraldatabase.Filter.{
  Text, Json, FieldFilter, WhereClause, op_eq, op_lt, op_gt, op_gte, op_in, op_map, text_eq,
  text_lt, lookup, assign, compare_by, json_compare, apply_op, parse_ops, parse_spec, parse_fields,
  parse_where, all_ops, all_fields, evaluate_filter,
}
use neuraldatabase.Filter.Compare.{negation, apply_op-negation}
use neuraldatabase.Filter.Meaning.{query_holds}
use neuraldatabase.Filter.Evaluate.{evaluate_filter-parse_where}
use neuraldatabase.Float.{ieee_lt}

mutual
  pub data Value : Type 0 where
    number : ℕ → Value
    text : Text → Value
    list : Values → Value
    object : Fields → Value

  pub data Values : Type 0 where
    end : Values
    item : Value → Values → Values

  pub data Fields : Type 0 where
    closed : Fields
    field : Text → Value → Fields → Fields

pub values : Values → List Value
values end = []
values (item v vs) = v ∷ values vs

pub fields : Fields → List (Text × Value)
fields closed = []
fields (field k v fs) = (k, v) ∷ fields fs

abbrev a_number : Value → Bool
a_number (number x) = true
a_number v = false

abbrev a_text : Value → Bool
a_text (text t) = true
a_text v = false

abbrev a_list : Value → Bool
a_list (list vs) = true
a_list v = false

abbrev an_object : Value → Bool
an_object (object fs) = true
an_object v = false

abbrev double_of : Value → ℕ
double_of (number x) = x
double_of v = 0

abbrev text_of : Value → Text
text_of (text t) = t
text_of v = []

-- enough to tell the values of the tests apart
abbrev printed : Value → Text
printed (number x) = x ∷ []
printed (text t) = 34 ∷ t
printed (list vs) = 91 ∷ []
printed (object fs) = 123 ∷ []

abbrev values_of : Value → List Value
values_of (list vs) = values vs
values_of v = []

abbrev fields_of : Value → List (Text × Value)
fields_of (object fs) = fields fs
fields_of v = []

abbrev year : Text
year = 121 ∷ []

abbrev name : Text
name = 110 ∷ []

-- {"y": 7, "n": "b"}
abbrev meta : Value
meta = object (field year (number 7) (field name (text (98 ∷ [])) closed))

abbrev parsed : Text → Option Value
parsed [] = none
parsed (x ∷ xs) = some meta

abbrev pub json : Json Value
json = record {
  is_number = a_number;
  is_string = a_text;
  is_array = a_list;
  is_object = an_object;
  get_double = double_of;
  get_string = text_of;
  dump = printed;
  elements = values_of;
  items = fields_of;
  parse = parsed;
}

-- {"y": {"$gte": 5}, "n": "b"}
abbrev pub condition : Value
condition = object (
    field year (object (field (36 ∷ 103 ∷ 116 ∷ 101 ∷ []) (number 5) closed))
      (field name (text (98 ∷ [])) closed))

abbrev on_year : Text × List (FieldFilter Value)
on_year = (year, record { op = op_gte; value = number 5 } ∷ [])

abbrev on_name : Text × List (FieldFilter Value)
on_name = (name, record { op = op_eq; value = text (98 ∷ []) } ∷ [])

abbrev pub clause : WhereClause Value
clause = on_year ∷ on_name ∷ []

pub condition_parses : parse_where json condition ≡ some clause
unfolding fields parse_where parse_fields parse_spec parse_ops lookup op_map text_eq assign
condition_parses = refl

clause_holds : evaluate_filter json (1 ∷ []) clause ≡ true
unfolding fields evaluate_filter all_fields all_ops apply_op json_compare compare_by ieee_lt text_lt
    text_eq lookup
clause_holds = refl

evaluate_filter-parse_where_example :
    evaluate_filter json (1 ∷ []) clause ≡ query_holds json (1 ∷ []) condition
unfolding fields text_eq
evaluate_filter-parse_where_example =
    evaluate_filter-parse_where json (1 ∷ []) condition clause ((refl, tt), (tt, tt))
      condition_parses

apply_op-negation_example :
    apply_op json (number 4) (negation op_in) (list (item (number 4) end))
    ≡ not (apply_op json (number 4) op_in (list (item (number 4) end)))
apply_op-negation_example = apply_op-negation json (number 4) op_in (list (item (number 4) end))

-- A number and a string are each less than the other.
mixed_runs :
    (apply_op json (number 4) op_lt (text []) ≡ true)
    × (apply_op json (text []) op_lt (number 4) ≡ true)
    × (apply_op json (number 4) op_gt (text []) ≡ false)
    × (apply_op json (text []) op_gt (number 4) ≡ false)
unfolding text_eq apply_op json_compare
mixed_runs = (refl, refl, refl, refl)
