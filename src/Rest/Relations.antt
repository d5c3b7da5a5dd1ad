-- ===== src/Rest/Relations.antt =====
-- Relationships of tables, and the SELECT that uses them: FindRelationship and FindRelationshipWithHint
-- of internal/rest/relations.go, and BuildSelectQueryWithRelations of builder.go. What
-- GetRelationships reads from the database is a parameter.
pub mod Statement
pub mod Plain
pub mod Bound
mod Tests
use sblite.Prelude.{
  ℕ, Text, codes, str_eq, join, Option, none, some, List, [], ◌∷◌, ◌++◌, Bool, true, false, ◌||◌,
  ◌+◌, if◌then◌else◌, Result, ok, err, map,
}
use sblite.Numbers.{pos, print_int}
use sblite.Rest.Lists.{OrderBy}

pub record Relationship : Type 0 where
  pub name : Text
  pub local_column : Text
  pub foreign_table : Text
  pub foreign_column : Text
  pub kind : Text

-- GetRelationships
abbrev pub Relationships : Type 0
Relationships = Text → Result (List Relationship)

unfoldable pub find_named : Text → List Relationship → Option Relationship
unfolding str_eq
find_named name [] = none
find_named name (rel ∷ rels) =
    let rest = find_named name rels in if str_eq rel.name name then some rel else rest

-- `none` stands for nil.
unfoldable pub find_relationship : Relationships → Text → Text → Result (Option Relationship)
unfolding find_named
find_relationship relationships table name = elim (relationships table) [
  | err e ↦ err e
  | ok rels ↦ ok (find_named name rels)
]

-- The relationships that the name selects.
unfoldable pub candidates : Text → List Relationship → List Relationship
unfolding str_eq
candidates name [] = []
candidates name (rel ∷ rels) =
    let rest = candidates name rels in
    if str_eq rel.name name || str_eq rel.foreign_table name then rel ∷ rest else rest

unfoldable pub hinted : Text → List Relationship → Option Relationship
unfolding str_eq
hinted hint [] = none
hinted hint (rel ∷ rels) =
    let rest = hinted hint rels in if str_eq rel.local_column hint then some rel else rest

-- The verb %v on the hints.
unfoldable pub print_hints : List Relationship → Text
unfolding join
print_hints rels = codes "[" ++ (join (codes " ") (map (λ rel. rel.local_column) rels) ++ codes "]")

unfoldable pub choose_hinted : Text → List Relationship → Result (Option Relationship)
unfolding hinted print_hints
choose_hinted hint [] = ok none
choose_hinted hint (rel ∷ rels) = elim (hinted hint (rel ∷ rels)) [
  | some found ↦ ok (some found)
  | none ↦ err (
      codes "no foreign key '"
      ++ (hint ++ (codes "' found. Available: " ++ print_hints (rel ∷ rels))))
]

unfoldable pub find_relationship_with_hint :
    Relationships → Text → Text → Text → Result (Option Relationship)
unfolding find_relationship candidates choose_hinted
find_relationship_with_hint relationships table name [] = find_relationship relationships table name
find_relationship_with_hint relationships table name (c ∷ hint) = elim (relationships table) [
  | err e ↦ err e
  | ok rels ↦ choose_hinted (c ∷ hint) (candidates name rels)
]

unfoldable pub failed_to_find : Text → Text → Text
failed_to_find name e = codes "failed to find relationship for " ++ (name ++ (codes ": " ++ e))

-- A table that an order needs.
pub record JoinedTable : Type 0 where
  pub alias : Text
  pub table : Text
  pub local_col : Text
  pub foreign_col : Text
  pub order_column : Text
  pub order_desc : Bool

unfoldable pub joined_table : ℕ → OrderBy → Relationship → JoinedTable
unfolding print_int
joined_table index o rel = record {
  alias = codes "_rel" ++ print_int (pos index);
  table = rel.foreign_table;
  local_col = rel.local_column;
  foreign_col = rel.foreign_column;
  order_column = o.column;
  order_desc = o.desc;
}

-- The loop over the orders, from the given `joinIdx` on.
unfoldable pub joined_tables : Relationships → Text → ℕ → List OrderBy → Result (List JoinedTable)
unfolding str_eq find_relationship joined_table failed_to_find
joined_tables relationships table index [] = ok []
joined_tables relationships table index (o ∷ os) =
    let skipped = joined_tables relationships table index os in
    let next = joined_tables relationships table (index + 1) os in
    if str_eq o.related_table []
    then skipped
    else elim (find_relationship relationships table o.related_table) [
      | err e ↦ err (failed_to_find o.related_table e)
      | ok none ↦ skipped
      | ok (some rel) ↦ elim next [
        | err e ↦ err e
        | ok joined ↦ ok (joined_table index o rel ∷ joined)
      ]
    ]
