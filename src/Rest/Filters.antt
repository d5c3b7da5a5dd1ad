-- ===== src/Rest/Filters.antt =====
-- Filters of a request and how they are parsed (internal/rest/query.go).
use sblite.Prelude.{
  ℕ, zero, suc, Text, codes, str_eq, has_prefix, length, cut, cut_text, drop, join, Option, none,
  some, List, [], ◌∷◌, ◌++◌, Bool, true, false, Result, ok, err, lookup, Dict, if◌then◌else◌,
}

pub record Filter : Type 0 where
  pub column : Text
  pub operator : Text
  pub value : Text
  pub related_table : Text
  pub related_column : Text
  pub json_path : Text
  pub json_text : Bool

pub record FtsFilter : Type 0 where
  pub column : Text
  pub operator : Text
  pub query : Text
  pub config : Text

-- A filter on a column of the table itself.
abbrev pub simple_filter : Text → Text → Text → Filter
simple_filter column operator value = record {
  column = column;
  operator = operator;
  value = value;
  related_table = [];
  related_column = [];
  json_path = [];
  json_text = false;
}

unfoldable pub valid_operators : Dict Text
valid_operators =
    (codes "eq", codes "=")
    ∷ (codes "neq", codes "!=")
    ∷ (codes "gt", codes ">")
    ∷ (codes "gte", codes ">=")
    ∷ (codes "lt", codes "<")
    ∷ (codes "lte", codes "<=")
    ∷ (codes "is", codes "IS")
    ∷ (codes "in", codes "IN")
    ∷ (codes "like", codes "LIKE")
    ∷ (codes "ilike", codes "ILIKE")
    ∷ (codes "not", codes "NOT")
    ∷ []

-- The keys of `ftsOperators`; each is mapped to true.
unfoldable pub fts_operators : Text → Bool
fts_operators op =
    if str_eq op (codes "fts")
    then true
    else if str_eq op (codes "plfts")
    then true
    else if str_eq op (codes "phfts")
    then true
    else str_eq op (codes "wfts")

-- What stands before the first "(", and what stands between it and the first ")" of the text, if
-- that comes later.
unfoldable pub parens : Text → Option (Text × Option Text)
unfolding cut
parens s = elim (cut b'(' s) [
  | none ↦ none
  | some (before, after) ↦ elim (cut b')' before) [
    | some _ ↦ some (before, none)
    | none ↦ elim (cut b')' after) [
      | none ↦ some (before, none)
      | some (inner, _) ↦ some (before, some inner)
    ]
  ]
]

unfoldable pub parse_fts_operator : Text → Text × Text
unfolding parens
parse_fts_operator op = elim (parens op) [
  | none ↦ (op, [])
  | some (base_op, none) ↦ (base_op, [])
  | some (base_op, some config) ↦ (base_op, config)
]

unfoldable pub is_fts_operator : Text → Bool
unfolding fts_operators parse_fts_operator
is_fts_operator op = fts_operators (parse_fts_operator op).0

-- The loop over the JSON operators: the keys of the path, and whether `->>` occurs. `none`: the fuel
-- ran out.
unfoldable pub path_parts : ℕ → Bool → Text → Option (List Text × Bool)
unfolding cut_text drop has_prefix
path_parts zero is_text s = none
path_parts (suc fuel) is_text [] = some ([], is_text)
path_parts (suc fuel) is_text (b ∷ s) =
    let remaining = b ∷ s in
    let behind_text = path_parts fuel true (drop 3 remaining) in
    let behind = path_parts fuel is_text (drop 2 remaining) in
    if has_prefix remaining (codes "->>")
    then behind_text
    else if has_prefix remaining (codes "->")
    then behind
    else elim (cut_text (codes "->") remaining) [
      | none ↦ some (remaining ∷ [], is_text)
      | some (key, rest) ↦ elim (path_parts fuel is_text rest) [
        | none ↦ none
        | some (keys, t) ↦ some (key ∷ keys, t)
      ]
    ]

-- "$." + strings.Join(pathParts, ".")
unfoldable pub json_path_of : List Text → Text
unfolding join
json_path_of keys = codes "$." ++ join (codes ".") keys

-- `none` stands for `ok = false`: the path, the base column and whether it is a text extraction.
unfoldable pub parse_json_path_filter : Text → Option (Text × Text × Bool)
unfolding cut_text path_parts json_path_of
parse_json_path_filter column = elim (cut_text (codes "->") column) [
  | none ↦ none
  | some ([], remaining) ↦ none
  | some (c ∷ base, remaining) ↦ elim (path_parts (suc (length remaining)) false remaining) [
    | none ↦ none
    | some ([], is_text) ↦ none
    | some (k ∷ keys, is_text) ↦ some (json_path_of (k ∷ keys), c ∷ base, is_text)
  ]
]

-- The end of `ParseFilter`, behind the checks.
unfoldable pub filter_on : Text → Text → Text → Filter
unfolding parse_json_path_filter cut
filter_on column operator value = elim (parse_json_path_filter column) [
  | some (path, base, is_text) ↦ record (simple_filter base operator value) {
    json_path = path;
    json_text = is_text;
  }
  | none ↦ elim (cut b'.' column) [
    | none ↦ simple_filter column operator value
    | some (table, related) ↦ record (simple_filter column operator value) {
      related_table = table;
      related_column = related;
    }
  ]
]

unfoldable pub parse_operator : Text → Text → Text → Result Filter
unfolding is_fts_operator valid_operators lookup filter_on
parse_operator column operator value =
    if is_fts_operator operator
    then err
        (codes "fts_operator:" ++ (column ++ (codes ":" ++ (operator ++ (codes ":" ++ value)))))
    else elim (lookup operator valid_operators) [
      | none ↦ err (codes "unknown operator: " ++ operator)
      | some _ ↦ ok (filter_on column operator value)
    ]

unfoldable pub parse_filter : Text → Result Filter
unfolding cut parse_operator
parse_filter input = elim (cut b'=' input) [
  | none ↦ err (codes "invalid filter format: " ++ input)
  | some (column, op_value) ↦ elim (cut b'.' op_value) [
    | none ↦ err (codes "invalid operator format: " ++ op_value)
    | some (operator, value) ↦ parse_operator column operator value
  ]
]

-- `ok none` stands for the nil filter without an error.
unfoldable pub parse_fts_filter : Text → Result (Option FtsFilter)
unfolding cut parse_fts_operator fts_operators
parse_fts_filter input = elim (cut b'=' input) [
  | none ↦ err (codes "invalid filter format: " ++ input)
  | some (column, op_value) ↦ elim (cut b'.' op_value) [
    | none ↦ err (codes "invalid operator format: " ++ op_value)
    | some (operator, query) ↦
        let (base_op, config) = parse_fts_operator operator in
        let found : FtsFilter = record {
          column = column;
          operator = base_op;
          query = query;
          config = config;
        } in
        if fts_operators base_op then ok (some found) else ok none
  ]
]
