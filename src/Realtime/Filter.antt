-- ===== src/Realtime/Filter.antt =====
-- The filters of postgres_changes subscriptions (internal/realtime/filter.go).
pub mod Parse
use sblite.Prelude.{
  ℕ, Text, codes, str_eq, Option, none, some, List, [], ◌∷◌, Bool, true, false, not, ◌==◌,
  if◌then◌else◌, split, cut, trim_prefix, trim_suffix,
}
use sblite.Realtime.Protocol.{Any, Fields, nil, bool, int, int64, float, text, get_field}
use sblite.Values.{Conversions}

-- The results -1, 0 and 1 of `compareNumeric`.
pub data Comparison : Type 0 where
  less : Comparison
  equal : Comparison
  greater : Comparison

unfoldable pub equals_parsed : (ℕ → ℕ → Bool) → ℕ → Option ℕ → Bool
equals_parsed same v none = false
equals_parsed same v (some w) = same v w

abbrev pub is_greater : Comparison → Bool
is_greater greater = true
is_greater _ = false

abbrev pub is_less : Comparison → Bool
is_less less = true
is_less _ = false

-- The new row, and the old one for want of it; `none` for the nil map.
abbrev pub row_of : Option Fields → Option Fields → Option Fields
row_of (some row) old = some row
row_of none old = old

module _ (conv : Conversions) where
  unfoldable pub compare_equal : Any → Text → Bool
  unfolding equals_parsed
  compare_equal (text v) filter_value = str_eq v filter_value
  compare_equal (float v) filter_value =
      equals_parsed conv.float_eq v (conv.parse_float filter_value)
  compare_equal (int64 v) filter_value =
      equals_parsed (λ a b. a == b) v (conv.parse_int filter_value)
  compare_equal (int v) filter_value = equals_parsed (λ a b. a == b) v (conv.atoi filter_value)
  compare_equal (bool true) filter_value = str_eq (codes "true") filter_value
  compare_equal (bool false) filter_value = str_eq (codes "false") filter_value
  compare_equal nil filter_value = str_eq filter_value (codes "null")
  compare_equal v filter_value = str_eq (conv.sprint v) filter_value

  -- `rowNum`; `none`: the row's value cannot be compared.
  unfoldable pub row_number : Any → Option ℕ
  row_number (float v) = some v
  row_number (int64 v) = some (conv.float_of_int64 v)
  row_number (int v) = some (conv.float_of_int v)
  row_number (text v) = conv.parse_float v
  row_number _ = none

  unfoldable pub compare_numbers : ℕ → ℕ → Comparison
  compare_numbers a b =
      if conv.float_lt a b then less else if conv.float_lt b a then greater else equal

  -- What cannot be compared counts as equal.
  unfoldable pub compare_numeric : Any → Text → Comparison
  unfolding row_number compare_numbers
  compare_numeric v filter_value = elim (row_number v) [
    | none ↦ equal
    | some a ↦ elim (conv.parse_float filter_value) [ none ↦ equal | some b ↦ compare_numbers a b ]
  ]

  -- The loop of `compareIn`.
  unfoldable pub any_equal : Any → List Text → Bool
  unfolding compare_equal
  any_equal v [] = false
  any_equal v (s ∷ values) =
      let rest = any_equal v values in if compare_equal v (conv.trim_space s) then true else rest

  unfoldable pub compare_in : Any → Text → Bool
  unfolding any_equal split trim_prefix trim_suffix
  compare_in v filter_value =
      any_equal v (split b',' (trim_suffix b')' (trim_prefix b'(' filter_value)))

  unfoldable pub evaluate_operator : Text → Any → Text → Bool
  unfolding compare_equal compare_numeric compare_in
  evaluate_operator operator v filter_value =
      if str_eq operator (codes "eq")
      then compare_equal v filter_value
      else if str_eq operator (codes "neq")
      then not (compare_equal v filter_value)
      else if str_eq operator (codes "gt")
      then is_greater (compare_numeric v filter_value)
      else if str_eq operator (codes "gte")
      then not (is_less (compare_numeric v filter_value))
      else if str_eq operator (codes "lt")
      then is_less (compare_numeric v filter_value)
      else if str_eq operator (codes "lte")
      then not (is_greater (compare_numeric v filter_value))
      else if str_eq operator (codes "in")
      then compare_in v filter_value
      else false

  -- Behind the parsing.
  unfoldable pub matches_row : Text → Text → Text → Option Fields → Bool
  unfolding evaluate_operator get_field
  matches_row column operator value none = false
  matches_row column operator value (some row) = elim (get_field column row) [
    | none ↦ false
    | some v ↦ evaluate_operator operator v value
  ]

  unfoldable pub matches_filter : Text → Option Fields → Option Fields → Bool
  unfolding cut matches_row
  matches_filter filter new_row old_row = elim (cut b'=' filter) [
    | none ↦ false
    | some (column, op_value) ↦ elim (cut b'.' op_value) [
      | none ↦ false
      | some (operator, value) ↦ matches_row column operator value (row_of new_row old_row)
    ]
  ]
