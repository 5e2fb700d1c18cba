-- ===== src/Filter/Meaning.antt =====
-- src/filter.cpp: what a condition says, read directly from its JSON, and the filters that
-- `parse_where` makes of one field.
use neuraldatabase.Prelude.{
  ◌≡◌, refl, ap, inl, inr, Bool, true, false, ◌&&◌, Option, none, some, List, [], ◌∷◌, arith,
  if◌then◌else◌, Bool-cases, Option-cases,
}
use neuraldatabase.Filter.{
  Text, Json, FilterOp, op_eq, FieldFilter, WhereClause, lookup, op_map, apply_op, parse_ops,
  parse_spec, all_ops, all_fields,
}

some_or : {A : Type 0} → A → Option A → A
some_or a none = a
some_or a (some b) = b

pub un_some : {A : Type 0} {a b : A} → some a ≡ some b → a ≡ b
unfolding some_or
un_some {a = a} h = ap (λ o. some_or a o) h

if_and : (a b : Bool) → (if a then b else false) ≡ (a && b)
if_and true b = refl
if_and false b = refl

module _ {J : Type 0} (json : Json J) where
  -- A value meets `{"$gte": 2020, …}` if it passes each operator, and a bare value if it equals it.
  unfoldable pub meets_ops : J → List (Text × J) → Bool
  meets_ops v [] = true
  meets_ops v ((op_key, val) ∷ rest) = elim (lookup op_key op_map) [
    | none ↦ false
    | some op ↦ apply_op json v op val && meets_ops v rest
  ]

  unfoldable pub meets : J → J → Bool
  meets v spec =
      if json.is_object spec then meets_ops v (json.items spec) else apply_op json v op_eq spec

  -- the field is there and its value meets the condition on it
  unfoldable pub field_holds : J → Text × J → Bool
  field_holds meta (field, spec) = elim (lookup field (json.items meta)) [
    | none ↦ false
    | some v ↦ meets v spec
  ]

  unfoldable pub fields_hold : J → List (Text × J) → Bool
  fields_hold meta [] = true
  fields_hold meta (entry ∷ rest) = field_holds meta entry && fields_hold meta rest

  -- the text is an object with the property
  abbrev pub object_with : (J → Bool) → Text → Bool
  object_with p text = elim (json.parse text) [
    | none ↦ false
    | some meta ↦ if json.is_object meta then p meta else false
  ]

  -- No condition holds of every text.
  unfoldable pub conditions_hold : Text → List (Text × J) → Bool
  conditions_hold text [] = true
  conditions_hold text (entry ∷ rest) = object_with (λ meta. fields_hold meta (entry ∷ rest)) text

  unfoldable pub query_holds : Text → J → Bool
  query_holds text where_json =
      if json.is_object where_json then conditions_hold text (json.items where_json) else true

  all_ops-meets_ops :
      (v : J) (spec : List (Text × J)) (filters : List (FieldFilter J))
      → parse_ops json spec ≡ some filters
      → all_ops json v filters ≡ meets_ops v spec
  unfolding parse_ops all_ops meets_ops
  all_ops-meets_ops v [] [] h = refl
  all_ops-meets_ops v [] (ff ∷ filters) h = absurd (ground arith)
  all_ops-meets_ops v ((k, val) ∷ rest) filters h = elim (Option-cases (lookup k op_map)) [
    | inl e ↦ absurd (ground arith)
    | inr (op, e) ↦ elim (Option-cases (parse_ops json rest)) [
      | inl e' ↦ absurd (ground arith)
      | inr (more, e') ↦
          let f : record { op = op; value = val } ∷ more ≡ filters = un_some (rw (e, e') at h) in
          rw (← f, meets_ops, e)
            (all_ops-cons v op val more rest (all_ops-meets_ops v rest more e'))
    ]
  ]
    where
      all_ops-cons :
          (v : J) (op : FilterOp) (val : J) (more : List (FieldFilter J)) (rest : List (Text × J))
          → all_ops json v more ≡ meets_ops v rest
          → (if apply_op json v op val then all_ops json v more else false)
            ≡ (apply_op json v op val && meets_ops v rest)
      all_ops-cons v op val more rest ih = ground arith

  all_ops-meets :
      (v spec : J) (filters : List (FieldFilter J))
      → parse_spec json spec ≡ some filters
      → all_ops json v filters ≡ meets v spec
  unfolding parse_spec meets all_ops
  all_ops-meets v spec filters h = elim (Bool-cases (json.is_object spec)) [
    | inl e ↦ rw e (all_ops-meets_ops v (json.items spec) filters (rw e at h))
    | inr e ↦
        let f : record { op = op_eq; value = spec } ∷ [] ≡ filters = un_some (rw e at h) in
        rw (← f, e) (if_true (apply_op json v op_eq spec))
  ]
    where
      if_true : (b : Bool) → (if b then true else false) ≡ b
      if_true true = refl
      if_true false = refl

  -- the entry's field passes its filters
  abbrev pub passes : J → Text × List (FieldFilter J) → Bool
  passes meta entry = elim (lookup entry.0 (json.items meta)) [
    | none ↦ false
    | some v ↦ all_ops json v entry.1
  ]

  pub all_fields-cons :
      (meta : J) (entry : Text × List (FieldFilter J)) (rest : WhereClause J)
      → all_fields json meta (entry ∷ rest) ≡ (passes meta entry && all_fields json meta rest)
  unfolding all_fields
  all_fields-cons meta (field, filters) rest = at_field (lookup field (json.items meta))
    where
      at_field :
          (o : Option J)
          → (elim o [
            | none ↦ false
            | some v ↦ if all_ops json v filters then all_fields json meta rest else false
          ])
            ≡ (elim o [ none ↦ false | some v ↦ all_ops json v filters ]
                && all_fields json meta rest)
      at_field none = refl
      at_field (some v) = if_and (all_ops json v filters) (all_fields json meta rest)

  pub passes-field_holds :
      (meta : J) (field : Text) (spec : J) (filters : List (FieldFilter J))
      → parse_spec json spec ≡ some filters
      → passes meta (field, filters) ≡ field_holds meta (field, spec)
  unfolding field_holds
  passes-field_holds meta field spec filters h = at_field (lookup field (json.items meta))
    where
      at_field :
          (o : Option J)
          → (elim o [ none ↦ false | some v ↦ all_ops json v filters ])
            ≡ (elim o [ none ↦ false | some v ↦ meets v spec ])
      at_field none = refl
      at_field (some v) = all_ops-meets v spec filters h
