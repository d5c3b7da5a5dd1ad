-- ===== src/Rest/Conditions.antt =====
-- The SQL of filters: `ToSQL` and `ToRelatedSQL` of internal/rest/query.go, and quoteIdentifier and
-- the `ToSQL` of logical filters of builder.go. A condition is its text and its arguments.
pub mod Params
pub mod Bound
use sblite.Prelude.{
  ℕ, Text, codes, str_eq, cut, join, replace_all, replace_from, lookup, Option, none, some, List,
  [], ◌∷◌, ◌++◌, map, Bool, true, false, not, ◌&&◌, if◌then◌else◌,
}
use sblite.Values.{Any, Conversions, bool, int64, float, text}
use sblite.Rest.Filters.{Filter, valid_operators}
use sblite.Rest.Lists.{LogicalFilter, parse_in_values, convert_wildcards}

abbrev pub Sql : Type 0
Sql = Text × List Any

unfoldable pub quote_identifier : Text → Text
unfolding replace_from
quote_identifier name = b'"' ∷ (replace_all (b'"' ∷ []) (b'"' ∷ b'"' ∷ []) name ++ b'"' ∷ [])

-- A "?" for each argument, with commas between them.
unfoldable pub placeholders : List Any → Text
unfolding join
placeholders args = join (codes ", ") (map (λ _. codes "?") args)

unfoldable pub with_value : Text → Text → Any → Sql
with_value column op v = (column ++ op, v ∷ [])

unfoldable pub lower_like : Text → Text → Any → Sql
lower_like column op v = (codes "LOWER(" ++ (column ++ (codes ")" ++ op)), v ∷ [])

-- IN or NOT IN over values; `empty` is the condition where there are none.
unfoldable pub in_condition : Text → Text → Text → List Any → Sql
unfolding placeholders
in_condition column op empty [] = (empty, [])
in_condition column op empty (v ∷ args) =
    (column ++ (op ++ (placeholders (v ∷ args) ++ codes ")")), v ∷ args)

unfoldable pub is_condition : Text → Text → Sql
unfolding with_value
is_condition column value =
    if str_eq value (codes "null")
    then (column ++ codes " IS NULL", [])
    else if str_eq value (codes "not.null")
    then (column ++ codes " IS NOT NULL", [])
    else if str_eq value (codes "true")
    then (column ++ codes " = 1", [])
    else if str_eq value (codes "false")
    then (column ++ codes " = 0", [])
    else with_value column (codes " IS ?") (text value)

unfoldable pub not_is_condition : Text → Text → Sql
unfolding with_value
not_is_condition column value =
    if str_eq value (codes "null")
    then (column ++ codes " IS NOT NULL", [])
    else if str_eq value (codes "not.null")
    then (column ++ codes " IS NULL", [])
    else with_value column (codes " IS NOT ?") (text value)

module _ (conv : Conversions) where
  unfoldable pub try_convert_json_value : Text → Any
  try_convert_json_value v =
      if str_eq v (codes "true")
      then bool true
      else if str_eq v (codes "false")
      then bool false
      else elim (conv.parse_int v) [
        | some i ↦ int64 i
        | none ↦ elim (conv.parse_float v) [ some f ↦ float f | none ↦ text v ]
      ]

  -- The switch of `parseNotFilter`, behind the inner operator.
  unfoldable pub negated : Text → Text → Text → Sql
  unfolding with_value lower_like in_condition not_is_condition parse_in_values convert_wildcards
  negated column op value =
      if str_eq op (codes "eq")
      then with_value column (codes " != ?") (text value)
      else if str_eq op (codes "neq")
      then with_value column (codes " = ?") (text value)
      else if str_eq op (codes "gt")
      then with_value column (codes " <= ?") (text value)
      else if str_eq op (codes "gte")
      then with_value column (codes " < ?") (text value)
      else if str_eq op (codes "lt")
      then with_value column (codes " >= ?") (text value)
      else if str_eq op (codes "lte")
      then with_value column (codes " > ?") (text value)
      else if str_eq op (codes "is")
      then not_is_condition column value
      else if str_eq op (codes "in")
      then in_condition column (codes " NOT IN (") (codes "1 = 1")
          (map text (parse_in_values conv value))
      else if str_eq op (codes "like")
      then with_value column (codes " NOT LIKE ?") (text (convert_wildcards value))
      else if str_eq op (codes "ilike")
      then lower_like column (codes " NOT LIKE LOWER(?)") (text (convert_wildcards value))
      else (codes "NOT (" ++ (column ++ codes " = ?)"), text value ∷ [])

  unfoldable pub parse_not_filter : Text → Text → Sql
  unfolding negated cut with_value
  parse_not_filter column value = elim (cut b'.' value) [
    | none ↦ with_value column (codes " != ?") (text value)
    | some (inner_op, inner_val) ↦ negated column inner_op inner_val
  ]

  -- `validOperators[f.Operator]`, empty where there is none
  unfoldable pub sql_operator : Text → Text
  unfolding lookup valid_operators
  sql_operator op = elim (lookup op valid_operators) [ none ↦ [] | some sql ↦ sql ]

  -- The switch of `ToSQL` and of `ToRelatedSQL`, which differ in `convert_value` alone.
  unfoldable pub operator_sql : (Text → Any) → Text → Text → Text → Sql
  unfolding is_condition in_condition with_value lower_like parse_not_filter sql_operator
      parse_in_values convert_wildcards
  operator_sql convert_value column op value =
      if str_eq op (codes "is")
      then is_condition column value
      else if str_eq op (codes "in")
      then in_condition column (codes " IN (") (codes "1 = 0")
          (map convert_value (parse_in_values conv value))
      else if str_eq op (codes "like")
      then with_value column (codes " LIKE ?") (text (convert_wildcards value))
      else if str_eq op (codes "ilike")
      then lower_like column (codes " LIKE LOWER(?)") (text (convert_wildcards value))
      else if str_eq op (codes "not")
      then parse_not_filter column value
      else with_value column (codes " " ++ (sql_operator op ++ codes " ?")) (convert_value value)

  unfoldable pub convert_value : Filter → Text → Any
  unfolding try_convert_json_value
  convert_value f v =
      if not (str_eq f.json_path []) && not f.json_text then try_convert_json_value v else text v

  -- `quotedColumn`
  unfoldable pub quoted_column : Filter → Text
  unfolding quote_identifier
  quoted_column f =
      if str_eq f.json_path []
      then quote_identifier f.column
      else codes "json_extract("
        ++ (quote_identifier f.column ++ (codes ", '" ++ (f.json_path ++ codes "')")))

  unfoldable pub to_sql : Filter → Sql
  unfolding operator_sql convert_value quoted_column
  to_sql f =
      if str_eq f.related_table []
      then operator_sql (convert_value f) (quoted_column f) f.operator f.value
      else ([], [])

  unfoldable pub to_related_sql : Filter → Sql
  unfolding operator_sql quote_identifier
  to_related_sql f =
      if str_eq f.related_table []
      then ([], [])
      else operator_sql text (quote_identifier f.related_column) f.operator f.value

  -- The loop of the logical `ToSQL`: the conditions and the arguments.
  unfoldable pub logical_conditions : List Filter → List Text × List Any
  unfolding to_sql
  logical_conditions [] = ([], [])
  logical_conditions (f ∷ fs) =
      let (sql, filter_args) = to_sql f in
      let (conditions, args) = logical_conditions fs in (sql ∷ conditions, filter_args ++ args)

  unfoldable pub logical_sql : Text → List Filter → Sql
  unfolding logical_conditions join
  logical_sql operator [] = ([], [])
  logical_sql operator (f ∷ fs) =
      let (conditions, args) = logical_conditions (f ∷ fs) in
      let joiner = if str_eq operator (codes "or") then codes " OR " else codes " AND " in
      (codes "(" ++ (join joiner conditions ++ codes ")"), args)

  unfoldable pub logical_to_sql : LogicalFilter → Sql
  unfolding logical_sql
  logical_to_sql lf = logical_sql lf.operator lf.filters
