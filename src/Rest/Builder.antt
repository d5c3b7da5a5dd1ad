-- ===== src/Rest/Builder.antt =====
-- SQL statements from requests (internal/rest/builder.go): each is its text and its arguments, which
-- `sb` and `args` gather in the source.
pub mod Columns
pub mod Sorted
pub mod Statements
pub mod Bound
pub mod Order
pub mod Search
pub mod Policies
use sblite.Prelude.{
  ℕ, zero, suc, Text, codes, str_eq, ltb, Option, none, some, List, [], ◌∷◌, ◌++◌, Bool, true,
  false, not, ◌&&◌, ◌||◌, if◌then◌else◌, map,
}
use sblite.Values.{Any, Conversions, text}
use sblite.Rest.Filters.{Filter}
use sblite.Rest.Lists.{LogicalFilter, OrderBy}
use sblite.Numbers.{ℤ, pos, negsuc, print_int}
use sblite.Rest.Conditions.{Sql, quote_identifier, to_sql, logical_to_sql}

-- An FTS condition that BuildFTSCondition has built.
pub record FtsCondition : Type 0 where
  pub sql : Text
  pub args : List Any
  pub column : Text
  pub fts_table : Text
  pub fts_query : Text

-- `Query`, as far as the builders read it.
pub record Query : Type 0 where
  pub table : Text
  pub select : List Text
  pub filters : List Filter
  pub fts_conditions : List FtsCondition
  pub logical_filters : List LogicalFilter
  pub order : List OrderBy
  pub limit : ℤ
  pub offset : ℤ
  pub rls_condition : Text

-- Text without arguments, and one piece behind another.
abbrev pub plain : Text → Sql
plain s = (s, [])

infixr 60 ◌<>◌
abbrev pub ◌<>◌ : Sql → Sql → Sql
x <> y = (x.0 ++ y.0, x.1 ++ y.1)

unfoldable pub join_sql : Text → List Sql → Sql
join_sql separator [] = plain []
join_sql separator (x ∷ []) = x
join_sql separator (x ∷ y ∷ r) = x <> plain separator <> join_sql separator (y ∷ r)

unfoldable pub is_empty_text : Text → Bool
is_empty_text [] = true
is_empty_text (_ ∷ _) = false

unfoldable pub is_empty_sql : List Sql → Bool
is_empty_sql [] = true
is_empty_sql (_ ∷ _) = false

-- A condition is taken if its text is not empty.
unfoldable pub keep_sql : Sql → List Sql → List Sql
unfolding is_empty_text
keep_sql x conditions = if is_empty_text x.0 then conditions else x ∷ conditions

-- `findFTSOrderColumn`: for one order, and for the first order that has a condition.
unfoldable pub fts_for : Text → List FtsCondition → Option FtsCondition
unfolding is_empty_text
fts_for column [] = none
fts_for column (c ∷ cs) =
    if str_eq c.column column && not (is_empty_text c.fts_table) then some c else fts_for column cs

unfoldable pub find_fts_order_column :
    List OrderBy → List FtsCondition → Option (FtsCondition × OrderBy)
unfolding fts_for
find_fts_order_column [] cs = none
find_fts_order_column (o ∷ os) cs = elim (fts_for o.column cs) [
  | some c ↦ some (c, o)
  | none ↦ find_fts_order_column os cs
]

unfoldable pub is_rank_column : Option (FtsCondition × OrderBy) → Text → Bool
is_rank_column none column = false
is_rank_column (some (c, o)) column = str_eq column o.column

unfoldable pub is_rank_condition : Option (FtsCondition × OrderBy) → Text → Bool
is_rank_condition none column = false
is_rank_condition (some (c, o)) column = str_eq column c.column

-- " WHERE " before the first condition of a statement, " AND " before the others.
unfoldable pub also : Bool → Text
also has_conditions = if has_conditions then codes " AND " else codes " WHERE "

unfoldable pub rls_text : Bool → Text → Sql
unfolding also is_empty_text
rls_text has_conditions condition =
    if is_empty_text condition then plain [] else plain (also has_conditions ++ condition)

-- The loop over the FTS conditions; `rank` is the one that is in the JOIN already.
unfoldable pub fts_text : Bool → Option (FtsCondition × OrderBy) → List FtsCondition → Sql
unfolding also is_empty_text is_rank_condition
fts_text has_conditions rank [] = plain []
fts_text has_conditions rank (c ∷ cs) =
    let skipped = fts_text has_conditions rank cs in
    let behind = fts_text true rank cs in
    if is_empty_text c.sql || is_rank_condition rank c.column
    then skipped
    else (also has_conditions ++ c.sql, c.args) <> behind

unfoldable pub direction : Bool → Text
direction desc = if desc then codes " DESC" else codes " ASC"

unfoldable pub order_piece : Option (FtsCondition × OrderBy) → OrderBy → Sql
unfolding is_rank_column direction quote_identifier
order_piece rank o =
    if is_rank_column rank o.column
    then plain (codes "_fts_rank.rank" ++ direction o.desc)
    else plain (quote_identifier o.column ++ direction o.desc)

unfoldable pub order_text : Option (FtsCondition × OrderBy) → List OrderBy → Sql
unfolding order_piece join_sql
order_text rank [] = plain []
order_text rank (o ∷ os) =
    plain (codes " ORDER BY ") <> join_sql (codes ", ") (map (order_piece rank) (o ∷ os))

unfoldable pub limit_text : ℤ → ℤ → Sql
unfolding print_int
limit_text (pos zero) offset = plain []
limit_text (negsuc n) offset = plain []
limit_text (pos (suc n)) offset =
    plain (codes " LIMIT " ++ (print_int (pos (suc n)) ++ (codes " OFFSET " ++ print_int offset)))
