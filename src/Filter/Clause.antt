-- ===== src/Filter/Clause.antt =====
-- src/filter.cpp: the clause that `parse_where` collects, field by field.
use neuraldatabase.Prelude.{
  ◌≡◌, refl, sym, ap, subst, ◌∙◌, inl, inr, Bool, true, false, ◌&&◌, some, List, [], ◌∷◌, arith,
  Bool-cases, Option-cases,
}
use neuraldatabase.Filter.Compare.{text_eq-sym}
use neuraldatabase.Filter.{
  Text, Json, FieldFilter, WhereClause, text_eq, assign, parse_spec, parse_fields, all_fields,
}
use neuraldatabase.Filter.Meaning.{
  un_some, field_holds, fields_hold, passes, all_fields-cons, passes-field_holds,
}

and_assoc : (a b c : Bool) → (a && (b && c)) ≡ ((a && b) && c)
and_assoc true b c = refl
and_assoc false b c = refl

and_comm : (a b : Bool) → (a && b) ≡ (b && a)
and_comm true true = refl
and_comm true false = refl
and_comm false true = refl
and_comm false false = refl

module _ {J : Type 0} (json : Json J) where
  -- The key is none of those in the list.
  abbrev pub IsNew {ℓ} : {V : Type ℓ} → Text → List (Text × V) → Type 0
  IsNew key [] = Unit
  IsNew key ((k, v) ∷ rest) = (text_eq k key ≡ false) × IsNew key rest

  -- The keys of an object differ.
  abbrev pub HasKeys : List (Text × J) → Type 0
  HasKeys [] = Unit
  HasKeys ((k, v) ∷ rest) = IsNew k rest × HasKeys rest

  -- None of the keys is in the clause yet.
  abbrev pub AreNew : List (Text × J) → WhereClause J → Type 0
  AreNew [] result = Unit
  AreNew ((k, v) ∷ rest) result = IsNew k result × AreNew rest result

  all_fields-assign :
      (meta : J) (field : Text) (filters : List (FieldFilter J)) (result : WhereClause J)
      → IsNew field result
      → all_fields json meta (assign field filters result)
        ≡ (all_fields json meta result && passes json meta (field, filters))
  unfolding assign
  all_fields-assign meta field filters [] h =
      all_fields-cons json meta (field, filters) []
      ∙ and_comm (passes json meta (field, filters)) (all_fields json meta [])
  all_fields-assign meta field filters ((k, v) ∷ rest) h = rw h.0 (
      all_fields-cons json meta (k, v) (assign field filters rest)
      ∙ ap (λ b. passes json meta (k, v) && b) (all_fields-assign meta field filters rest h.1)
      ∙ and_assoc (passes json meta (k, v)) (all_fields json meta rest)
          (passes json meta (field, filters))
      ∙ ap (λ b. b && passes json meta (field, filters))
          (sym (all_fields-cons json meta (k, v) rest)))

  assign-IsNew :
      (key field : Text) (filters : List (FieldFilter J)) (result : WhereClause J)
      → text_eq field key ≡ false
      → IsNew key result
      → IsNew key (assign field filters result)
  unfolding assign
  assign-IsNew key field filters [] e h = (e, tt)
  assign-IsNew key field filters ((k, v) ∷ rest) e h = elim (Bool-cases (text_eq k field)) [
    | inl t ↦ rw t h
    | inr t ↦ rw t (h.0, assign-IsNew key field filters rest e h.1)
  ]

  assign-AreNew :
      (field : Text) (filters : List (FieldFilter J)) (entries : List (Text × J))
      (result : WhereClause J)
      → IsNew field entries
      → AreNew entries result
      → AreNew entries (assign field filters result)
  assign-AreNew field filters [] result n h = tt
  assign-AreNew field filters ((k, v) ∷ rest) result n h = (
    assign-IsNew k field filters result (text_eq-sym field k ∙ n.0) h.0,
    assign-AreNew field filters rest result n.1 h.1,
  )

  pub all_fields-parse_fields :
      (meta : J) (entries : List (Text × J)) (result where_clause : WhereClause J)
      → HasKeys entries
      → AreNew entries result
      → parse_fields json entries result ≡ some where_clause
      → all_fields json meta where_clause
        ≡ (all_fields json meta result && fields_hold json meta entries)
  unfolding parse_fields fields_hold
  all_fields-parse_fields meta [] result where_clause d n h =
      ap (all_fields json meta) (sym (un_some h)) ∙ and_comm true (all_fields json meta result)
  all_fields-parse_fields meta ((field, spec) ∷ rest) result where_clause d n h =
      elim (Option-cases (parse_spec json spec)) [
        | inl e ↦ absurd (ground arith)
        | inr (filters, e) ↦
            all_fields-parse_fields meta rest (assign field filters result) where_clause d.1
              (assign-AreNew field filters rest result d.0 n.1) (rw e at h)
            ∙ ap (λ b. b && fields_hold json meta rest)
                (all_fields-assign meta field filters result n.0
                  ∙ ap (λ b. all_fields json meta result && b)
                      (passes-field_holds json meta field spec filters e))
            ∙ sym (
                and_assoc (all_fields json meta result) (field_holds json meta (field, spec))
                  (fields_hold json meta rest))
      ]

  -- a clause with an entry stays one
  abbrev pub IsSome : WhereClause J → Type 0
  IsSome [] = ⊥
  IsSome (entry ∷ rest) = Unit

  assign-IsSome :
      (field : Text) (filters : List (FieldFilter J)) (result : WhereClause J)
      → IsSome (assign field filters result)
  unfolding assign
  assign-IsSome field filters [] = tt
  assign-IsSome field filters ((k, v) ∷ rest) = elim (Bool-cases (text_eq k field)) [
    | inl t ↦ rw t tt
    | inr t ↦ rw t tt
  ]

  parse_more-IsSome :
      (entries : List (Text × J)) (result where_clause : WhereClause J)
      → IsSome result
      → parse_fields json entries result ≡ some where_clause
      → IsSome where_clause
  unfolding parse_fields
  parse_more-IsSome [] result where_clause s h = subst IsSome (un_some h) s
  parse_more-IsSome ((field, spec) ∷ rest) result where_clause s h =
      elim (Option-cases (parse_spec json spec)) [
        | inl e ↦ absurd (ground arith)
        | inr (filters, e) ↦
            parse_more-IsSome rest (assign field filters result) where_clause
              (assign-IsSome field filters result) (rw e at h)
      ]

  pub parse_fields-IsSome :
      (field : Text) (spec : J) (rest : List (Text × J)) (where_clause : WhereClause J)
      → parse_fields json ((field, spec) ∷ rest) [] ≡ some where_clause
      → IsSome where_clause
  unfolding parse_fields
  parse_fields-IsSome field spec rest where_clause h = elim (Option-cases (parse_spec json spec)) [
    | inl e ↦ absurd (ground arith)
    | inr (filters, e) ↦
        parse_more-IsSome rest (assign field filters []) where_clause
          (assign-IsSome field filters []) (rw e at h)
  ]

  pub AreNew-nil : (entries : List (Text × J)) → AreNew entries []
  AreNew-nil [] = tt
  AreNew-nil ((k, v) ∷ rest) = (tt, AreNew-nil rest)

  pub all_fields-nil : (meta : J) → all_fields json meta [] ≡ true
  unfolding all_fields
  all_fields-nil meta = refl
