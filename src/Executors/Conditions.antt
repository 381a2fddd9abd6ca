-- ===== src/Executors/Conditions.antt =====
-- `_evaluate_condition` (src/core/executors/basic.py), with the truth, the order and the membership
-- of Python's values. An instance of a dataclass is true, has no order, and cannot be hashed.
use agent_roles.Common.{
  zero, String, Bool, true, false, not, ◌||◌, Option, none, some, Result, ok, err, value_error,
  type_error, ◌>>=◌, ◌=ₛ◌, ltb, ◌==◌, text_lt, if◌then◌else◌, is_some,
}
use package.text.Mathlib.Text.{find?}
use agent_roles.Value.{
  ℤ, pos, negsuc, Value, Items, null, bool, int, text, arr, dict, object, nil, cons, end, field,
  fget, value_eq,
}

-- `bool(value)`
unfoldable pub truthy : Value → Bool
truthy null = false
truthy (bool b) = b
truthy (int (pos zero)) = false
truthy (int _) = true
truthy (text s) = not (s =ₛ "")
truthy (arr nil) = false
truthy (arr (cons _ _)) = true
truthy (dict end) = false
truthy (dict (field _ _ _)) = true
truthy (object _) = true

pub data Place : Type 0 where
  below level above : Place

abbrev place_int : ℤ → ℤ → Place
place_int (pos m) (pos n) =
    if ltb m n then Place.below else if m == n then Place.level else Place.above
place_int (pos m) (negsuc n) = Place.above
place_int (negsuc m) (pos n) = Place.below
place_int (negsuc m) (negsuc n) =
    if ltb n m then Place.below else if m == n then Place.level else Place.above

abbrev place_text : String → String → Place
place_text s t = if text_lt s t then Place.below else if s =ₛ t then Place.level else Place.above

abbrev number_of_bool : Bool → ℤ
number_of_bool true = pos 1
number_of_bool false = pos 0

abbrev place_number : ℤ → Value → Result Place
place_number m (int n) = ok (place_int m n)
place_number m (bool b) = ok (place_int m (number_of_bool b))
place_number m _ = err type_error

-- The place of a value against another; lists go by their first items that differ.
unfoldable mutual
  pub order : Value → Value → Result Place
  order (int m) w = place_number m w
  order (bool b) w = place_number (number_of_bool b) w
  order (text s) w = elim w [ text t ↦ ok (place_text s t) | _ ↦ err type_error ]
  order (arr xs) w = elim w [ arr ys ↦ order_items xs ys | _ ↦ err type_error ]
  order null w = err type_error
  order (dict d) w = err type_error
  order (object d) w = err type_error

  pub order_items : Items → Items → Result Place
  order_items nil ys = elim ys [ nil ↦ ok Place.level | cons _ _ ↦ ok Place.below ]
  order_items (cons x xs) ys = elim ys [
    | nil ↦ ok Place.above
    | cons y ys' ↦ if value_eq x y then order_items xs ys' else order x y
  ]

abbrev is_below : Place → Bool
is_below Place.below = true
is_below _ = false

abbrev is_above : Place → Bool
is_above Place.above = true
is_above _ = false

-- `value in items`
unfoldable pub among : Value → Items → Bool
among v nil = false
among v (cons x xs) = value_eq x v || among v xs

-- `value in container`: of a dict by key, of a text by part. Lists and dicts cannot be hashed.
unfoldable pub is_in : Value → Value → Result Bool
is_in v (arr xs) = ok (among v xs)
is_in (text s) (text t) = ok (is_some (find? t s))
is_in (text s) (dict d) = ok (is_some (fget d s))
is_in null (dict d) = ok false
is_in (bool _) (dict d) = ok false
is_in (int _) (dict d) = ok false
is_in _ _ = err type_error

pub data Operator : Type 0 where
  truthy_op falsy_op eq_op ne_op gt_op gte_op lt_op lte_op in_op not_in_op exists_op : Operator

-- The operator that a text names; of any other `_evaluate_condition` raises.
unfoldable pub operator_of : String → Option Operator
operator_of s =
    if s =ₛ "truthy"
    then some Operator.truthy_op
    else if s =ₛ "falsy"
    then some Operator.falsy_op
    else if s =ₛ "eq"
    then some Operator.eq_op
    else if s =ₛ "ne"
    then some Operator.ne_op
    else if s =ₛ "gt"
    then some Operator.gt_op
    else if s =ₛ "gte"
    then some Operator.gte_op
    else if s =ₛ "lt"
    then some Operator.lt_op
    else if s =ₛ "lte"
    then some Operator.lte_op
    else if s =ₛ "in"
    then some Operator.in_op
    else if s =ₛ "not_in"
    then some Operator.not_in_op
    else if s =ₛ "exists"
    then some Operator.exists_op
    else none

abbrev is_null : Value → Bool
is_null null = true
is_null _ = false

unfoldable pub evaluate : Value → Operator → Value → Result Bool
evaluate actual Operator.truthy_op expected = ok (truthy actual)
evaluate actual Operator.falsy_op expected = ok (not (truthy actual))
evaluate actual Operator.eq_op expected = ok (value_eq actual expected)
evaluate actual Operator.ne_op expected = ok (not (value_eq actual expected))
evaluate actual Operator.gt_op expected = order actual expected >>= λ p. ok (is_above p)
evaluate actual Operator.gte_op expected = order actual expected >>= λ p. ok (not (is_below p))
evaluate actual Operator.lt_op expected = order actual expected >>= λ p. ok (is_below p)
evaluate actual Operator.lte_op expected = order actual expected >>= λ p. ok (not (is_above p))
evaluate actual Operator.in_op expected = is_in actual expected
evaluate actual Operator.not_in_op expected = is_in actual expected >>= λ b. ok (not b)
evaluate actual Operator.exists_op expected = ok (not (is_null actual))

-- `_evaluate_condition`
unfoldable pub evaluate_condition : Value → String → Value → Result Bool
evaluate_condition actual operator expected = elim (operator_of operator) [
  | none ↦ err value_error
  | some op ↦ evaluate actual op expected
]
