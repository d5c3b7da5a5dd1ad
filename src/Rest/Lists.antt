-- ===== src/Rest/Lists.antt =====
-- Parameters that hold lists: the values of `in`, orders, and the parts of `or` and `and`
-- (internal/rest/query.go). Go ranges over runes where it looks for ASCII characters alone, which are
-- the same bytes in a valid text.
use sblite.Prelude.{
  ℕ, Text, codes, str_eq, cut, split, trim_prefix, trim_suffix, strip_suffix, replace_all,
  replace_from, lookup, none, some, List, [], ◌∷◌, ◌++◌, Bool, true, false, not, ◌&&◌, ◌==◌, ◌+◌,
  Result, ok, err, if◌then◌else◌,
}
use sblite.Values.{Conversions}
use sblite.Rest.Filters.{Filter, simple_filter, parens, valid_operators}

pub record LogicalFilter : Type 0 where
  pub operator : Text
  pub filters : List Filter

pub record OrderBy : Type 0 where
  pub column : Text
  pub desc : Bool
  pub related_table : Text

-- An empty text is not taken into the result.
unfoldable pub keep_value : Text → List Text → List Text
keep_value [] values = values
keep_value (c ∷ s) values = (c ∷ s) ∷ values

unfoldable pub convert_wildcards : Text → Text
unfolding replace_from
convert_wildcards pattern = replace_all (codes "*") (codes "%") pattern

unfoldable pub parse_select : Text → List Text
unfolding split
parse_select [] = codes "*" ∷ []
parse_select (c ∷ s) = split b',' (c ∷ s)

-- The relation(column) format.
unfoldable pub order_in : Text → Bool → OrderBy
unfolding parens
order_in column desc = elim (parens column) [
  | some (table, some inner) ↦ record { column = inner; desc = desc; related_table = table }
  | _ ↦ record { column = column; desc = desc; related_table = [] }
]

unfoldable pub parse_order_part : Text → OrderBy
unfolding strip_suffix order_in
parse_order_part part = elim (strip_suffix part (codes ".desc")) [
  | some column ↦ order_in column true
  | none ↦ elim (strip_suffix part (codes ".asc")) [
    | some column ↦ order_in column false
    | none ↦ order_in part false
  ]
]

unfoldable pub order_parts : List Text → List OrderBy
unfolding parse_order_part
order_parts [] = []
order_parts (part ∷ parts) = parse_order_part part ∷ order_parts parts

unfoldable pub parse_order : Text → List OrderBy
unfolding split order_parts
parse_order [] = []
parse_order (c ∷ s) = order_parts (split b',' (c ∷ s))

unfoldable pub parse_logical_part : Text → Result Filter
unfolding cut valid_operators lookup
parse_logical_part part = elim (cut b'.' part) [
  | none ↦ err (codes "invalid logical filter format: " ++ part)
  | some (column, rest) ↦ elim (cut b'.' rest) [
    | none ↦ err (codes "invalid logical filter format: " ++ part)
    | some (operator, value) ↦ elim (lookup operator valid_operators) [
      | none ↦ err (codes "unknown operator: " ++ operator)
      | some _ ↦ ok (simple_filter column operator value)
    ]
  ]
]

unfoldable pub parse_logical_parts : List Text → Result (List Filter)
unfolding parse_logical_part
parse_logical_parts [] = ok []
parse_logical_parts (part ∷ parts) = elim (parse_logical_part part) [
  | err e ↦ err e
  | ok f ↦ elim (parse_logical_parts parts) [ err e ↦ err e | ok fs ↦ ok (f ∷ fs) ]
]

module _ (conv : Conversions) where
  -- The loop of `parseInValues`.
  unfoldable pub in_values : Bool → Text → Text → List Text
  unfolding keep_value
  in_values in_quotes current [] = keep_value (conv.trim_space current) []
  in_values in_quotes current (c ∷ s) =
      let quoted = in_values (not in_quotes) current s in
      let next = in_values in_quotes [] s in
      let more = in_values in_quotes (current ++ c ∷ []) s in
      if c == b'"'
      then quoted
      else if c == b',' && not in_quotes
      then keep_value (conv.trim_space current) next
      else more

  unfoldable pub parse_in_values : Text → List Text
  unfolding in_values trim_prefix trim_suffix
  parse_in_values value = elim (trim_suffix b')' (trim_prefix b'(' value)) [
    | [] ↦ []
    | c ∷ s ↦ in_values false [] (c ∷ s)
  ]

  -- The loop that splits at commas outside of parentheses. Its depth is `opens - closes`, which may
  -- fall below 0.
  unfoldable pub split_parens : ℕ → ℕ → Text → Text → List Text
  split_parens opens closes [] [] = []
  split_parens opens closes (d ∷ current) [] = conv.trim_space (d ∷ current) ∷ []
  split_parens opens closes current (c ∷ s) =
      let deeper = split_parens (opens + 1) closes (current ++ c ∷ []) s in
      let outer = split_parens opens (closes + 1) (current ++ c ∷ []) s in
      let next = split_parens opens closes [] s in
      let more = split_parens opens closes (current ++ c ∷ []) s in
      if c == b'('
      then deeper
      else if c == b')'
      then outer
      else if c == b',' && opens == closes
      then elim current [ [] ↦ next | d ∷ r ↦ conv.trim_space (d ∷ r) ∷ next ]
      else more

  unfoldable pub split_logical_parts : Text → List Text
  unfolding split_parens
  split_logical_parts value = split_parens 0 0 [] value

  unfoldable pub logical_filters_in : Text → Result (List Filter)
  unfolding split_logical_parts parse_logical_parts
  logical_filters_in [] = ok []
  logical_filters_in (c ∷ s) = parse_logical_parts (split_logical_parts (c ∷ s))

  unfoldable pub parse_logical_filter : Text → Text → Result LogicalFilter
  unfolding logical_filters_in trim_prefix trim_suffix
  parse_logical_filter operator value =
      if not (str_eq operator (codes "or")) && not (str_eq operator (codes "and"))
      then err (codes "invalid logical operator: " ++ operator)
      else elim (logical_filters_in (trim_suffix b')' (trim_prefix b'(' value))) [
        | err e ↦ err e
        | ok filters ↦ ok (record { operator = operator; filters = filters })
      ]
