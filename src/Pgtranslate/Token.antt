-- ===== src/Pgtranslate/Token.antt =====
-- Token types, positions, tokens and the keyword table (internal/pgtranslate/token.go).
use sblite.Prelude.{
  ℕ, Text, codes, str_eq, Option, none, some, List, [], ◌∷◌, Bool, true, false, if◌then◌else◌,
}

pub data TokenType : Type 0 where
  token_eof token_error token_whitespace : TokenType
  token_ident token_qident token_string token_number token_dollar_str : TokenType
  token_plus token_minus token_star token_slash token_percent : TokenType
  token_caret token_eq token_ne token_lt token_le : TokenType
  token_gt token_ge token_concat token_cast token_json_arrow : TokenType
  token_json_arrow2 token_regex_match token_regex_match_ci token_regex_not_match
        token_regex_not_match_ci :
      TokenType
  token_lparen token_rparen token_lbracket token_rbracket token_comma : TokenType
  token_semicolon token_dot token_colon : TokenType
  token_select token_from token_where token_and token_or : TokenType
  token_not token_as token_null token_true token_false : TokenType
  token_is token_in token_like token_ilike token_between : TokenType
  token_case token_when token_then token_else token_end : TokenType
  token_order token_by token_asc token_desc token_limit : TokenType
  token_offset token_group token_having token_join token_left : TokenType
  token_right token_inner token_outer token_full token_cross : TokenType
  token_on token_using token_distinct token_all token_union : TokenType
  token_intersect token_except token_insert token_into token_values : TokenType
  token_update token_set token_delete token_create token_table : TokenType
  token_function token_replace token_drop token_alter token_index : TokenType
  token_primary token_key token_foreign token_references token_unique : TokenType
  token_check token_default token_constraint token_returning token_conflict : TokenType
  token_do token_nothing token_with token_recursive token_cast_kw : TokenType
  token_extract token_interval token_exists token_any token_some : TokenType
  token_coalesce token_nullif token_greatest token_least token_count : TokenType
  token_sum token_avg token_min token_max token_now : TokenType
  token_language token_sql token_returns token_setof token_immutable : TokenType
  token_stable token_volatile token_security token_definer token_invoker : TokenType
  token_if token_array token_over token_partition token_rows : TokenType
  token_range token_groups token_unbounded token_preceding token_following : TokenType
  token_current : TokenType

-- A position in the source: byte offset, 1-based line, column.
pub record Position : Type 0 where
  pub offset : ℕ
  pub line : ℕ
  pub column : ℕ

-- A field that a Go literal leaves out is the empty string.
pub record Token : Type 0 where
  pub type : TokenType
  pub value : Text
  pub pos : Position
  pub literal : Text

-- The map `keywords`. Its keys are distinct, so the order of the entries does not matter.
unfoldable pub keywords : List (Text × TokenType)
keywords =
    (codes "SELECT", token_select)
    ∷ (codes "FROM", token_from)
    ∷ (codes "WHERE", token_where)
    ∷ (codes "AND", token_and)
    ∷ (codes "OR", token_or)
    ∷ (codes "NOT", token_not)
    ∷ (codes "AS", token_as)
    ∷ (codes "NULL", token_null)
    ∷ (codes "TRUE", token_true)
    ∷ (codes "FALSE", token_false)
    ∷ (codes "IS", token_is)
    ∷ (codes "IN", token_in)
    ∷ (codes "LIKE", token_like)
    ∷ (codes "ILIKE", token_ilike)
    ∷ (codes "BETWEEN", token_between)
    ∷ (codes "CASE", token_case)
    ∷ (codes "WHEN", token_when)
    ∷ (codes "THEN", token_then)
    ∷ (codes "ELSE", token_else)
    ∷ (codes "END", token_end)
    ∷ (codes "ORDER", token_order)
    ∷ (codes "BY", token_by)
    ∷ (codes "ASC", token_asc)
    ∷ (codes "DESC", token_desc)
    ∷ (codes "LIMIT", token_limit)
    ∷ (codes "OFFSET", token_offset)
    ∷ (codes "GROUP", token_group)
    ∷ (codes "HAVING", token_having)
    ∷ (codes "JOIN", token_join)
    ∷ (codes "LEFT", token_left)
    ∷ (codes "RIGHT", token_right)
    ∷ (codes "INNER", token_inner)
    ∷ (codes "OUTER", token_outer)
    ∷ (codes "FULL", token_full)
    ∷ (codes "CROSS", token_cross)
    ∷ (codes "ON", token_on)
    ∷ (codes "USING", token_using)
    ∷ (codes "DISTINCT", token_distinct)
    ∷ (codes "ALL", token_all)
    ∷ (codes "UNION", token_union)
    ∷ (codes "INTERSECT", token_intersect)
    ∷ (codes "EXCEPT", token_except)
    ∷ (codes "INSERT", token_insert)
    ∷ (codes "INTO", token_into)
    ∷ (codes "VALUES", token_values)
    ∷ (codes "UPDATE", token_update)
    ∷ (codes "SET", token_set)
    ∷ (codes "DELETE", token_delete)
    ∷ (codes "CREATE", token_create)
    ∷ (codes "TABLE", token_table)
    ∷ (codes "FUNCTION", token_function)
    ∷ (codes "REPLACE", token_replace)
    ∷ (codes "DROP", token_drop)
    ∷ (codes "ALTER", token_alter)
    ∷ (codes "INDEX", token_index)
    ∷ (codes "PRIMARY", token_primary)
    ∷ (codes "KEY", token_key)
    ∷ (codes "FOREIGN", token_foreign)
    ∷ (codes "REFERENCES", token_references)
    ∷ (codes "UNIQUE", token_unique)
    ∷ (codes "CHECK", token_check)
    ∷ (codes "DEFAULT", token_default)
    ∷ (codes "CONSTRAINT", token_constraint)
    ∷ (codes "RETURNING", token_returning)
    ∷ (codes "CONFLICT", token_conflict)
    ∷ (codes "DO", token_do)
    ∷ (codes "NOTHING", token_nothing)
    ∷ (codes "WITH", token_with)
    ∷ (codes "RECURSIVE", token_recursive)
    ∷ (codes "CAST", token_cast_kw)
    ∷ (codes "EXTRACT", token_extract)
    ∷ (codes "INTERVAL", token_interval)
    ∷ (codes "EXISTS", token_exists)
    ∷ (codes "ANY", token_any)
    ∷ (codes "SOME", token_some)
    ∷ (codes "COALESCE", token_coalesce)
    ∷ (codes "NULLIF", token_nullif)
    ∷ (codes "GREATEST", token_greatest)
    ∷ (codes "LEAST", token_least)
    ∷ (codes "COUNT", token_count)
    ∷ (codes "SUM", token_sum)
    ∷ (codes "AVG", token_avg)
    ∷ (codes "MIN", token_min)
    ∷ (codes "MAX", token_max)
    ∷ (codes "NOW", token_now)
    ∷ (codes "LANGUAGE", token_language)
    ∷ (codes "SQL", token_sql)
    ∷ (codes "RETURNS", token_returns)
    ∷ (codes "SETOF", token_setof)
    ∷ (codes "IMMUTABLE", token_immutable)
    ∷ (codes "STABLE", token_stable)
    ∷ (codes "VOLATILE", token_volatile)
    ∷ (codes "SECURITY", token_security)
    ∷ (codes "DEFINER", token_definer)
    ∷ (codes "INVOKER", token_invoker)
    ∷ (codes "IF", token_if)
    ∷ (codes "ARRAY", token_array)
    ∷ (codes "OVER", token_over)
    ∷ (codes "PARTITION", token_partition)
    ∷ (codes "ROWS", token_rows)
    ∷ (codes "RANGE", token_range)
    ∷ (codes "GROUPS", token_groups)
    ∷ (codes "UNBOUNDED", token_unbounded)
    ∷ (codes "PRECEDING", token_preceding)
    ∷ (codes "FOLLOWING", token_following)
    ∷ (codes "CURRENT", token_current)
    ∷ []

-- m[s] on a map from strings, with Go's second result as the option
unfoldable pub find_keyword : Text → List (Text × TokenType) → Option TokenType
find_keyword s [] = none
find_keyword s ((k, t) ∷ rest) = if str_eq k s then some t else find_keyword s rest

-- `tok.Type == TokenEOF || tok.Type == TokenError`
unfoldable pub ends_input : TokenType → Bool
ends_input token_eof = true
ends_input token_error = true
ends_input _ = false
