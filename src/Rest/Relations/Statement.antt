-- ===== src/Rest/Relations/Statement.antt =====
-- BuildSelectQueryWithRelations and its helpers (internal/rest/builder.go).
use sblite.Prelude.{
  Text, codes, str_eq, join, has_prefix, cut, cut_text, drop, none, some, List, [], ◌∷◌, ◌++◌, map,
  Bool, true, false, not, ◌||◌, if◌then◌else◌, Result, ok, err,
}
use sblite.Values.{Conversions}
use sblite.Rest.Filters.{Filter}
use sblite.Rest.Lists.{OrderBy}
use sblite.Rest.Conditions.{Sql, quote_identifier, to_sql, to_related_sql, logical_to_sql}
use sblite.Rest.Builder.{
  Query, ◌<>◌, plain, keep_sql, is_empty_text, is_empty_sql, rls_text, fts_text, direction,
  limit_text,
}
use sblite.Rest.Builder.Columns.{is_star}
use sblite.Rest.Builder.Statements.{kept, where_text}
use sblite.Rest.Relations.{
  Relationship, Relationships, find_relationship, failed_to_find, JoinedTable, joined_tables,
}

-- `IsRelatedFilter`
unfoldable pub is_related_filter : Filter → Bool
unfolding str_eq
is_related_filter f = not (str_eq f.related_table [])

unfoldable pub has_related_filters : List Filter → Bool
unfolding is_related_filter
has_related_filters [] = false
has_related_filters (f ∷ fs) = is_related_filter f || has_related_filters fs

unfoldable pub has_related_ordering : List OrderBy → Bool
unfolding str_eq
has_related_ordering [] = false
has_related_ordering (o ∷ os) = not (str_eq o.related_table []) || has_related_ordering os

-- Before the quoted column that stands behind the first parenthesis.
unfoldable pub qualify_inside : Text → Text → Text
unfolding cut_text cut drop quote_identifier
qualify_inside sql table = elim (cut_text (codes "(\"") sql) [
  | none ↦ sql
  | some (before, rest) ↦ elim (cut b'"' (drop 2 rest)) [
    | none ↦ sql
    | some (column, suffix) ↦
        before
        ++ (codes "("
            ++ (quote_identifier table ++ (codes ".\"" ++ (column ++ (codes "\"" ++ suffix)))))
  ]
]

unfoldable pub qualify_column_with_table : Text → Text → Text
unfolding qualify_inside has_prefix quote_identifier
qualify_column_with_table sql table =
    if has_prefix sql (codes "\"")
    then quote_identifier table ++ (codes "." ++ sql)
    else qualify_inside sql table

-- Both kinds of relationship give the same text.
unfoldable pub exists_text : Text → Relationship → Text → Text
unfolding quote_identifier
exists_text main_table rel filter_sql =
    codes "EXISTS (SELECT 1 FROM "
    ++ (quote_identifier rel.foreign_table
        ++ (codes " WHERE "
            ++ (quote_identifier rel.foreign_table
                ++ (codes "."
                    ++ (quote_identifier rel.foreign_column
                        ++ (codes " = "
                            ++ (quote_identifier main_table
                                ++ (codes "."
                                    ++ (quote_identifier rel.local_column
                                        ++ (codes " AND " ++ (filter_sql ++ codes ")")))))))))))

unfoldable pub build_related_filter_exists : Conversions → Text → Filter → Relationship → Sql
unfolding to_related_sql is_empty_text exists_text
build_related_filter_exists conv main_table f rel =
    let (sql, args) = to_related_sql conv f in
    if is_empty_text sql then ([], []) else (exists_text main_table rel sql, args)

unfoldable pub qualified : Text → Text → Text
unfolding quote_identifier
qualified table column = quote_identifier table ++ (codes "." ++ quote_identifier column)

-- The column list; with joins the columns are those of the main table.
unfoldable pub relation_columns : Conversions → Bool → Text → List Text → Text
unfolding is_star join qualified quote_identifier
relation_columns conv has_joins table cols =
    if is_star cols
    then if has_joins then quote_identifier table ++ codes ".*" else codes "*"
    else join (codes ", ") (
        map
          (λ col.
            if has_joins
            then qualified table (conv.trim_space col)
            else quote_identifier (conv.trim_space col))
          cols)

unfoldable pub left_joins : Text → List JoinedTable → Text
unfolding quote_identifier qualified
left_joins main_table [] = []
left_joins main_table (jt ∷ joined) =
    codes " LEFT JOIN "
    ++ (quote_identifier jt.table
        ++ (codes " AS "
            ++ (quote_identifier jt.alias
                ++ (codes " ON "
                    ++ (qualified main_table jt.local_col
                        ++ (codes " = "
                            ++ (qualified jt.alias jt.foreign_col
                                ++ left_joins main_table joined)))))))

-- The loop over the filters of the main table.
unfoldable pub own_conditions : Conversions → Bool → Text → List Filter → List Sql
unfolding is_related_filter to_sql qualify_column_with_table is_empty_text
own_conditions conv has_joins table [] = []
own_conditions conv has_joins table (f ∷ fs) =
    let rest = own_conditions conv has_joins table fs in
    let (sql, args) = to_sql conv f in
    if is_related_filter f || is_empty_text sql
    then rest
    else if has_joins
    then (qualify_column_with_table sql table, args) ∷ rest
    else (sql, args) ∷ rest

-- The loop over the filters of related tables.
unfoldable pub related_conditions :
    Conversions → Relationships → Text → List Filter → Result (List Sql)
unfolding is_related_filter find_relationship failed_to_find build_related_filter_exists keep_sql
related_conditions conv relationships table [] = ok []
related_conditions conv relationships table (f ∷ fs) =
    let rest = related_conditions conv relationships table fs in
    if not (is_related_filter f)
    then rest
    else elim (find_relationship relationships table f.related_table) [
      | err e ↦ err (failed_to_find f.related_table e)
      | ok none ↦
          err (
            codes "no relationship found between " ++ (table ++ (codes " and " ++ f.related_table)))
      | ok (some rel) ↦ elim rest [
        | err e ↦ err e
        | ok conditions ↦ ok (keep_sql (build_related_filter_exists conv table f rel) conditions)
      ]
    ]

-- The loop over the orders. An order on a related table takes the next joined table, whichever that is.
unfoldable pub relation_orders : Bool → Text → List JoinedTable → List OrderBy → List Text
unfolding str_eq qualified quote_identifier direction
relation_orders has_joins table joined [] = []
relation_orders has_joins table [] (o ∷ os) =
    let rest = relation_orders has_joins table [] os in
    if not (str_eq o.related_table [])
    then rest
    else if has_joins
    then (qualified table o.column ++ direction o.desc) ∷ rest
    else (quote_identifier o.column ++ direction o.desc) ∷ rest
relation_orders has_joins table (jt ∷ joined) (o ∷ os) =
    let next = relation_orders has_joins table joined os in
    let rest = relation_orders has_joins table (jt ∷ joined) os in
    if not (str_eq o.related_table [])
    then (qualified jt.alias o.column ++ direction o.desc) ∷ next
    else if has_joins
    then (qualified table o.column ++ direction o.desc) ∷ rest
    else (quote_identifier o.column ++ direction o.desc) ∷ rest

unfoldable pub relation_order_text : Bool → Text → List JoinedTable → List OrderBy → Text
unfolding relation_orders join
relation_order_text has_joins table joined [] = []
relation_order_text has_joins table joined (o ∷ os) =
    codes " ORDER BY " ++ join (codes ", ") (relation_orders has_joins table joined (o ∷ os))

unfoldable pub has_joined : List JoinedTable → Bool
has_joined [] = false
has_joined (_ ∷ _) = true

-- The text behind the lookups of relationships.
unfoldable pub relation_statement : Conversions → Query → List JoinedTable → List Sql → Sql
unfolding has_joined relation_columns left_joins own_conditions kept logical_to_sql where_text
    rls_text fts_text is_empty_sql is_empty_text relation_order_text limit_text quote_identifier
relation_statement conv q joined related =
    let has_joins = has_joined joined in
    let conditions =
      own_conditions conv has_joins q.table q.filters
      ++ (related ++ kept (map (logical_to_sql conv) q.logical_filters)) in
    let has_conditions = not (is_empty_sql conditions) in
    plain (codes "SELECT " ++ relation_columns conv has_joins q.table q.select)
    <> plain (codes " FROM " ++ quote_identifier q.table)
    <> plain (left_joins q.table joined)
    <> where_text has_conditions conditions
    <> rls_text has_conditions q.rls_condition
    <> fts_text (has_conditions || not (is_empty_text q.rls_condition)) none q.fts_conditions
    <> plain (relation_order_text has_joins q.table joined q.order)
    <> limit_text q.limit q.offset

unfoldable pub build_select_query_with_relations : Conversions → Relationships → Query → Result Sql
unfolding joined_tables related_conditions relation_statement
build_select_query_with_relations conv relationships q =
    elim (joined_tables relationships q.table 0 q.order) [
      | err e ↦ err e
      | ok joined ↦ elim (related_conditions conv relationships q.table q.filters) [
        | err e ↦ err e
        | ok related ↦ ok (relation_statement conv q joined related)
      ]
    ]
