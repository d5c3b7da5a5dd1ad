-- ===== src/Rest/Builder/Columns.antt =====
-- The column list of SELECT: buildSelectColumn of internal/rest/builder.go. A "->" cannot stand across
-- the colon, so the first one is behind the first colon if there is none before that.
use sblite.Prelude.{
  suc, Text, codes, Option, none, some, List, cut, ◌∷◌, cut_text, str_eq, join, [], ◌++◌, Bool,
  if◌then◌else◌, length, true, map, false,
}
use sblite.Values.{Conversions}
use sblite.Rest.Conditions.{quote_identifier}
use sblite.Rest.Filters.{json_path_of, path_parts}

unfoldable pub unless_arrow : Text → Text → Text → Option (Text × Text) → Text × Text
unless_arrow col alias remaining none = (alias, remaining)
unless_arrow col alias remaining (some _) = ([], col)

unfoldable pub alias_in : Text → Option (Text × Text) → Text × Text
unfolding unless_arrow cut_text
alias_in col none = ([], col)
alias_in col (some (alias, remaining)) =
    unless_arrow col alias remaining (cut_text (codes "->") alias)

-- The alias, empty for none, and what remains of the column.
unfoldable pub alias_of : Text → Text × Text
unfolding cut alias_in
alias_of col = alias_in col (cut b':' col)

unfoldable pub last_key : Text → List Text → Text
last_key key [] = key
last_key key (next ∷ keys) = last_key next keys

unfoldable pub alias_or : Text → Text → Text
alias_or [] key = key
alias_or (c ∷ alias) key = c ∷ alias

-- The base column and the keys behind it; `none` where there is no "->" or no key.
unfoldable pub json_keys : Text → Option (Text × Text × List Text)
unfolding cut_text path_parts
json_keys remaining = elim (cut_text (codes "->") remaining) [
  | none ↦ none
  | some (base, arrows) ↦ elim (path_parts (suc (length arrows)) false arrows) [
    | none ↦ none
    | some ([], _) ↦ none
    | some (key ∷ keys, _) ↦ some (base, key, keys)
  ]
]

-- A simple or an aliased column.
unfoldable pub named_column : Text → Text → Text → Text
unfolding quote_identifier
named_column col [] remaining = quote_identifier col
named_column col (c ∷ alias) remaining =
    quote_identifier remaining ++ (codes " AS " ++ quote_identifier (c ∷ alias))

unfoldable pub json_column : Text → Text → Text → Text
unfolding quote_identifier
json_column base path alias =
    codes "json_extract("
    ++ (quote_identifier base
        ++ ((codes ", '" ++ (path ++ codes "')")) ++ (codes " AS " ++ quote_identifier alias)))

unfoldable pub build_select_column : Text → Text
unfolding alias_of json_keys named_column json_column json_path_of alias_or last_key
build_select_column col =
    let (alias, remaining) = alias_of col in
    elim (json_keys remaining) [
      | none ↦ named_column col alias remaining
      | some (base, key, keys) ↦
          json_column base (json_path_of (key ∷ keys)) (alias_or alias (last_key key keys))
    ]

-- The test for all columns.
unfoldable pub is_star : List Text → Bool
unfolding str_eq
is_star [] = true
is_star (col ∷ []) = str_eq col (codes "*")
is_star (_ ∷ _ ∷ _) = false

unfoldable pub select_columns : Conversions → List Text → Text
unfolding is_star join build_select_column
select_columns conv cols =
    if is_star cols
    then codes "*"
    else join (codes ", ") (map (λ col. build_select_column (conv.trim_space col)) cols)
