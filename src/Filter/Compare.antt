-- ===== src/Filter/Compare.antt =====
-- src/filter.cpp: `json_compare` and `apply_op`.
use neuraldatabase.Prelude.{
  ℕ, ◌≡◌, refl, inl, inr, Bool, true, false, not, ◌&&◌, ◌||◌, List, [], ◌∷◌, arith, Bool-cases,
}
use neuraldatabase.Float.{ieee_lt, binary64}
use neuraldatabase.Filter.{
  Text, Json, FilterOp, op_eq, op_ne, op_gt, op_gte, op_lt, op_lte, op_in, op_nin, text_eq, text_lt,
  Compared, below, equal, above, compare_by, json_compare, is_equal, any_equal, none_equal,
  apply_op,
}

-- the result with its arguments exchanged
unfoldable pub opposite : Compared → Compared
opposite below = above
opposite equal = equal
opposite above = below

text_lt-asym : (a b : Text) → text_lt a b ≡ true → text_lt b a ≡ false
unfolding text_lt
text_lt-asym [] [] h = refl
text_lt-asym [] (y ∷ ys) h = refl
text_lt-asym (x ∷ xs) [] h = absurd (ground arith)
text_lt-asym (x ∷ xs) (y ∷ ys) h = ground (arith, text_lt-asym xs ys)

double_lt-asym : (a b : ℕ) → ieee_lt binary64 a b ≡ true → ieee_lt binary64 b a ≡ false
unfolding ieee_lt
double_lt-asym a b h = ground arith

pub text_eq-sym : (a b : Text) → text_eq a b ≡ text_eq b a
unfolding text_eq
text_eq-sym [] [] = refl
text_eq-sym [] (y ∷ ys) = refl
text_eq-sym (x ∷ xs) [] = refl
text_eq-sym (x ∷ xs) (y ∷ ys) = ground (arith, text_eq-sym xs ys)

compare_by-opposite :
    {A : Type 0} (lt : A → A → Bool)
    → ((a b : A) → lt a b ≡ true → lt b a ≡ false)
    → (a b : A) → compare_by lt b a ≡ opposite (compare_by lt a b)
unfolding compare_by opposite
compare_by-opposite lt asym a b = elim (Bool-cases (lt a b)) [
  | inl e ↦ rw (e, asym a b e) refl
  | inr e ↦ elim (Bool-cases (lt b a)) [ inl e' ↦ rw (e, e') refl | inr e' ↦ rw (e, e') refl ]
]

-- the operator that holds exactly where the given one does not
unfoldable pub negation : FilterOp → FilterOp
negation op_eq = op_ne
negation op_ne = op_eq
negation op_gt = op_lte
negation op_gte = op_lt
negation op_lt = op_gte
negation op_lte = op_gt
negation op_in = op_nin
negation op_nin = op_in

not-not : (b : Bool) → b ≡ not (not b)
not-not true = refl
not-not false = refl

module _ {J : Type 0} (json : Json J) where
  -- two values that are both numbers, or both strings
  abbrev pub alike : J → J → Bool
  alike a b = (json.is_number a && json.is_number b) || (json.is_string a && json.is_string b)

  -- Two values that are both numbers or both strings compare the other way round when they are
  -- exchanged, equal ones as equal.
  pub json_compare-opposite :
      (a b : J) → alike a b ≡ true → json_compare json b a ≡ opposite (json_compare json a b)
  unfolding json_compare
  json_compare-opposite a b h =
      let n =
        compare_by-opposite (ieee_lt binary64) double_lt-asym (json.get_double a)
          (json.get_double b) in
      let s = compare_by-opposite text_lt text_lt-asym (json.get_string a) (json.get_string b) in
      ground (arith, n, s)

  none_equal-any_equal :
      (v : J) (elems : List J) → none_equal json v elems ≡ not (any_equal json v elems)
  unfolding any_equal none_equal
  none_equal-any_equal v [] = refl
  none_equal-any_equal v (e ∷ elems) = elim (Bool-cases (is_equal json (json_compare json v e))) [
    | inl t ↦ rw t refl
    | inr t ↦ rw t (none_equal-any_equal v elems)
  ]

  -- For any two values, of whatever types, each operator holds exactly where its negation does not.
  pub apply_op-negation :
      (v : J) (op : FilterOp) (w : J) → apply_op json v (negation op) w ≡ not (apply_op json v op w)
  unfolding apply_op negation
  apply_op-negation v op_eq w = refl
  apply_op-negation v op_ne w = not-not _
  apply_op-negation v op_gt w = refl
  apply_op-negation v op_gte w = not-not _
  apply_op-negation v op_lt w = refl
  apply_op-negation v op_lte w = not-not _
  apply_op-negation v op_in w = elim (Bool-cases (json.is_array w)) [
    | inl t ↦ rw t (none_equal-any_equal v (json.elements w))
    | inr t ↦ rw t refl
  ]
  apply_op-negation v op_nin w = elim (Bool-cases (json.is_array w)) [
    | inl t ↦ rw (t, none_equal-any_equal v (json.elements w)) (not-not _)
    | inr t ↦ rw t refl
  ]
