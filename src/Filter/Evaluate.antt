-- ===== src/Filter/Evaluate.antt =====
-- src/filter.cpp: `evaluate_filter` on a parsed condition, against the reading of its JSON, and the
-- order in which the conditions are tried.
use mathlib.Core.Logic.{∥∥₁_elim}
use mathlib.Core.Bool.{Bool-set}
use mathlib.Core.List.{Perm, Permᴰ}
use neuraldatabase.Prelude.{
  ◌≡◌, refl, sym, ap, ◌∙◌, inl, inr, Bool, true, false, ◌&&◌, Option, none, some, List, [], ◌∷◌,
  if◌then◌else◌, Bool-cases,
}
use neuraldatabase.Filter.{
  Text, Json, WhereClause, parse_fields, parse_where, all_fields, evaluate_filter,
}
use neuraldatabase.Filter.Clause.{
  HasKeys, AreNew-nil, IsSome, all_fields-parse_fields, parse_fields-IsSome, all_fields-nil,
}
use neuraldatabase.Filter.Meaning.{
  un_some, fields_hold, object_with, conditions_hold, query_holds, passes, all_fields-cons,
}

and_swap : (a b c : Bool) → (a && (b && c)) ≡ (b && (a && c))
and_swap true true c = refl
and_swap true false c = refl
and_swap false true c = refl
and_swap false false c = refl

is_nil : {A : Type 0} → List A → Bool
is_nil [] = true
is_nil (x ∷ xs) = false

module _ {J : Type 0} (json : Json J) where
  evaluate_filter-IsSome :
      (text : Text) (where_clause : WhereClause J)
      → IsSome json where_clause
      → evaluate_filter json text where_clause
        ≡ object_with json (λ meta. all_fields json meta where_clause) text
  unfolding evaluate_filter
  evaluate_filter-IsSome text [] h = elim h [ ]
  evaluate_filter-IsSome text (entry ∷ rest) h = refl

  object_with-cong :
      (p q : J → Bool) (text : Text)
      → ((meta : J) → p meta ≡ q meta)
      → object_with json p text ≡ object_with json q text
  object_with-cong p q text h = at_meta (json.parse text)
    where
      at_meta :
          (o : Option J)
          → (elim o [ none ↦ false | some meta ↦ if json.is_object meta then p meta else false ])
            ≡ (elim o [ none ↦ false | some meta ↦ if json.is_object meta then q meta else false ])
      at_meta none = refl
      at_meta (some meta) = rw (h meta) refl

  no_condition : (text : Text) → evaluate_filter json text [] ≡ true
  unfolding evaluate_filter
  no_condition text = refl

  of_items :
      (text : Text) (entries : List (Text × J)) (where_clause : WhereClause J)
      → HasKeys json entries
      → parse_fields json entries [] ≡ some where_clause
      → evaluate_filter json text where_clause ≡ conditions_hold json text entries
  unfolding conditions_hold parse_fields
  of_items text [] where_clause d h =
      ap (evaluate_filter json text) (sym (un_some h)) ∙ no_condition text
  of_items text ((field, spec) ∷ rest) where_clause d h =
      evaluate_filter-IsSome text where_clause
        (parse_fields-IsSome json field spec rest where_clause h)
      ∙ object_with-cong (λ meta. all_fields json meta where_clause)
          (λ meta. fields_hold json meta ((field, spec) ∷ rest)) text
          (λ meta.
            all_fields-parse_fields json meta ((field, spec) ∷ rest) [] where_clause d
              (AreNew-nil json ((field, spec) ∷ rest)) h
            ∙ ap (λ b. b && fields_hold json meta ((field, spec) ∷ rest))
                (all_fields-nil json meta))

  -- A condition that parses, with no field twice, is met by exactly the texts that its own reading
  -- says: texts of objects that have each field, with a value that passes json each of its operators
  -- or equals its bare value; a condition with no field is met by every text.
  pub evaluate_filter-parse_where :
      (text : Text) (where_json : J) (where_clause : WhereClause J)
      → HasKeys json (json.items where_json)
      → parse_where json where_json ≡ some where_clause
      → evaluate_filter json text where_clause ≡ query_holds json text where_json
  unfolding parse_where query_holds
  evaluate_filter-parse_where text where_json where_clause d h =
      elim (Bool-cases (json.is_object where_json)) [
        | inl e ↦ rw e (of_items text (json.items where_json) where_clause d (rw e at h))
        | inr e ↦
            rw e (ap (evaluate_filter json text) (sym (un_some (rw e at h))) ∙ no_condition text)
      ]

  field_by_field :
      (meta : J) {a b : WhereClause J} → Permᴰ a b → all_fields json meta a ≡ all_fields json meta b
  field_by_field meta Permᴰ.nil = refl
  field_by_field meta (Permᴰ.cons {a = x} {b = y} {l₁ = a} {l₂ = b} e p) =
      all_fields-cons json meta x a
      ∙ ap (λ z. passes json meta z && all_fields json meta a) e
      ∙ ap (λ t. passes json meta y && t) (field_by_field meta p)
      ∙ sym (all_fields-cons json meta y b)
  field_by_field meta (Permᴰ.swap {a = x} {b = y} {a' = x'} {b' = y'} {l = a} e e') =
      all_fields-cons json meta x (y ∷ a)
      ∙ ap (λ t. passes json meta x && t) (all_fields-cons json meta y a)
      ∙ and_swap (passes json meta x) (passes json meta y) (all_fields json meta a)
      ∙ ap (λ z. passes json meta z && (passes json meta x && all_fields json meta a)) e'
      ∙ ap (λ z. passes json meta x' && (passes json meta z && all_fields json meta a)) e
      ∙ ap (λ t. passes json meta x' && t) (sym (all_fields-cons json meta y' a))
      ∙ sym (all_fields-cons json meta x' (y' ∷ a))
  field_by_field meta (Permᴰ.trans p q) = field_by_field meta p ∙ field_by_field meta q

  reordered-nil : {a b : WhereClause J} → Permᴰ a b → is_nil a ≡ is_nil b
  unfolding is_nil
  reordered-nil Permᴰ.nil = refl
  reordered-nil (Permᴰ.cons _ _) = refl
  reordered-nil (Permᴰ.swap _ _) = refl
  reordered-nil (Permᴰ.trans p q) = reordered-nil p ∙ reordered-nil q

  by_emptiness :
      (text : Text) (where_clause : WhereClause J)
      → evaluate_filter json text where_clause ≡ (
          if is_nil where_clause
          then true
          else object_with json (λ meta. all_fields json meta where_clause) text)
  unfolding evaluate_filter is_nil
  by_emptiness text [] = refl
  by_emptiness text (entry ∷ rest) = refl

  -- In whatever order the map of conditions is iterated, the result is the same.
  pub evaluate_filter-Perm :
      (text : Text) (a b : WhereClause J)
      → Perm a b
      → evaluate_filter json text a ≡ evaluate_filter json text b
  evaluate_filter-Perm text a b p = ∥∥₁_elim p (Bool-set _ _) λ q.
      by_emptiness text a
      ∙ ap (λ n. if n then true else object_with json (λ meta. all_fields json meta a) text)
          (reordered-nil q)
      ∙ ap (λ t. if is_nil b then true else t)
          (object_with-cong (λ meta. all_fields json meta a) (λ meta. all_fields json meta b) text
            (λ meta. field_by_field meta q))
      ∙ sym (by_emptiness text b)
