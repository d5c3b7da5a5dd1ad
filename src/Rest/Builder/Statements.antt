-- ===== src/Rest/Builder/Statements.antt =====
-- The statements of internal/rest/builder.go, on one table. The `map` of a row is a list of fields, in
-- the order that Go's iteration takes them.
use sblite.Prelude.{
  Text, codes, Dict, List, join, str_eq, Bool, Option, map, false, ◌∷◌, ◌++◌, true, ◌||◌, some, [],
  none, not, if◌then◌else◌,
}
use sblite.Values.{Any, Conversions, text}
use sblite.Rest.Lists.{OrderBy}
use sblite.Rest.Conditions.{Sql, quote_identifier, placeholders, to_sql, logical_to_sql}
use sblite.Rest.Builder.{
  Query, FtsCondition, ◌<>◌, plain, join_sql, keep_sql, is_empty_sql, is_empty_text, rls_text,
  fts_text, find_fts_order_column, order_text, limit_text,
}
use sblite.Rest.Builder.Columns.{select_columns}
use sblite.Rest.Builder.Sorted.{sort_fields}

unfoldable pub kept : List Sql → List Sql
unfolding keep_sql
kept [] = []
kept (x ∷ xs) = keep_sql x (kept xs)

unfoldable pub where_text : Bool → List Sql → Sql
unfolding join_sql
where_text has_conditions conditions =
    if has_conditions
    then plain (codes " WHERE ") <> join_sql (codes " AND ") conditions
    else plain []

-- The clauses of SELECT that depend on the ranking condition; `go_quote` is the verb %q of fmt.
unfoldable pub select_text : Conversions → Option (FtsCondition × OrderBy) → Text → List Text → Text
unfolding select_columns quote_identifier
select_text conv none table columns = select_columns conv columns
select_text conv (some _) table columns = quote_identifier table ++ codes ".*"

unfoldable pub rank_join : (Text → Text) → Option (FtsCondition × OrderBy) → Text → Sql
unfolding quote_identifier
rank_join go_quote none table = plain []
rank_join go_quote (some (c, _)) table = (
  codes " INNER JOIN (SELECT rowid, rank FROM "
      ++ (go_quote c.fts_table
          ++ (codes " WHERE "
              ++ (go_quote c.fts_table
                  ++ (codes " MATCH ?) AS _fts_rank ON "
                      ++ (quote_identifier table ++ codes ".rowid = _fts_rank.rowid"))))),
  text c.fts_query ∷ [],
)

unfoldable pub assignment : Text → Text
unfolding quote_identifier
assignment k = quote_identifier k ++ codes " = ?"

unfoldable pub keys_of {ℓ} : {V : Type ℓ} → Dict V → List Text
keys_of m = map (λ e. e.0) m

unfoldable pub values_of {ℓ} : {V : Type ℓ} → Dict V → List V
values_of m = map (λ e. e.1) m

unfoldable pub quoted_names : List Text → Text
unfolding join quote_identifier
quoted_names names = join (codes ", ") (map quote_identifier names)

-- `INSERT INTO %s (%s) VALUES (%s)`
unfoldable pub insert_text : Text → Dict Any → Sql
unfolding quote_identifier quoted_names placeholders keys_of values_of
insert_text table row = (
  codes "INSERT INTO "
      ++ (quote_identifier table
          ++ (codes " ("
              ++ (quoted_names (keys_of row)
                  ++ (codes ") VALUES (" ++ (placeholders (values_of row) ++ codes ")"))))),
  values_of row,
)

unfoldable pub build_insert_query : Text → Dict Any → Sql
unfolding insert_text sort_fields
build_insert_query table data_of = insert_text table (sort_fields data_of)

unfoldable pub conflict_columns : List Text → List Text
conflict_columns [] = codes "id" ∷ []
conflict_columns (col ∷ cols) = col ∷ cols

unfoldable pub is_listed : Text → List Text → Bool
unfolding str_eq
is_listed k [] = false
is_listed k (col ∷ cols) = str_eq col k || is_listed k cols

unfoldable pub update_clause : Text → Text
unfolding quote_identifier
update_clause k = quote_identifier k ++ (codes " = excluded." ++ quote_identifier k)

-- The keys that are no conflict columns.
unfoldable pub updated_keys : List Text → List Text → List Text
unfolding is_listed
updated_keys conflict [] = []
updated_keys conflict (k ∷ keys) =
    let rest = updated_keys conflict keys in if is_listed k conflict then rest else k ∷ rest

-- The first key, where all keys are conflict columns.
unfoldable pub clause_keys : List Text → List Text → List Text
clause_keys (k ∷ updated) keys = k ∷ updated
clause_keys [] [] = []
clause_keys [] (k ∷ keys) = k ∷ []

unfoldable pub update_clauses : List Text → List Text → Text
unfolding join update_clause updated_keys clause_keys
update_clauses conflict keys =
    join (codes ", ") (map update_clause (clause_keys (updated_keys conflict keys) keys))

unfoldable pub on_conflict : List Text → List Text → Bool → Text
unfolding quoted_names update_clauses
on_conflict conflict keys ignore_duplicates =
    codes " ON CONFLICT ("
    ++ (quoted_names conflict
        ++ (if ignore_duplicates
            then codes ") DO NOTHING"
            else codes ") DO UPDATE SET " ++ update_clauses conflict keys))

unfoldable pub build_upsert_query : Text → Dict Any → List Text → Bool → Sql
unfolding insert_text sort_fields on_conflict conflict_columns keys_of
build_upsert_query table data_of conflict ignore_duplicates =
    let row = sort_fields data_of in
    insert_text table row
    <> plain (on_conflict (conflict_columns conflict) (keys_of row) ignore_duplicates)

module _ (conv : Conversions) where
  -- The conditions of BuildSelectQuery, which takes no empty one.
  unfoldable pub select_conditions : Query → List Sql
  unfolding kept to_sql logical_to_sql
  select_conditions q =
      kept (map (to_sql conv) q.filters) ++ kept (map (logical_to_sql conv) q.logical_filters)

  -- Those of the other statements, which takes the filters' as they are.
  unfoldable pub row_conditions : Query → List Sql
  unfolding kept to_sql logical_to_sql
  row_conditions q =
      map (to_sql conv) q.filters ++ kept (map (logical_to_sql conv) q.logical_filters)

  unfoldable pub has_filters : Query → Bool
  has_filters q = elim q.filters [
    | _ ∷ _ ↦ true
    | [] ↦ elim q.logical_filters [ _ ∷ _ ↦ true | [] ↦ false ]
  ]

  -- The end of BuildUpdateQuery, BuildDeleteQuery and BuildCountQuery.
  unfoldable pub filtered : Query → Sql
  unfolding has_filters where_text row_conditions rls_text
  filtered q =
      where_text (has_filters q) (row_conditions q) <> rls_text (has_filters q) q.rls_condition

  unfoldable pub build_update_query : Query → Dict Any → Sql
  unfolding sort_fields keys_of values_of assignment join filtered quote_identifier
  build_update_query q data_of =
      let row = sort_fields data_of in
      plain (codes "UPDATE " ++ (quote_identifier q.table ++ codes " SET "))
      <> (join (codes ", ") (map assignment (keys_of row)), values_of row)
      <> filtered q

  unfoldable pub build_delete_query : Query → Sql
  unfolding filtered quote_identifier
  build_delete_query q = plain (codes "DELETE FROM " ++ quote_identifier q.table) <> filtered q

  unfoldable pub build_count_query : Query → Sql
  unfolding filtered quote_identifier
  build_count_query q =
      plain (codes "SELECT COUNT(*) FROM " ++ quote_identifier q.table) <> filtered q

  unfoldable pub build_select_query : (Text → Text) → Query → Sql
  unfolding find_fts_order_column select_text rank_join select_conditions where_text rls_text
      fts_text order_text limit_text is_empty_sql is_empty_text quote_identifier
  build_select_query go_quote q =
      let rank = find_fts_order_column q.order q.fts_conditions in
      let conditions = select_conditions q in
      let has_conditions = not (is_empty_sql conditions) in
      plain (codes "SELECT " ++ select_text conv rank q.table q.select)
      <> plain (codes " FROM " ++ quote_identifier q.table)
      <> rank_join go_quote rank q.table
      <> where_text has_conditions conditions
      <> rls_text has_conditions q.rls_condition
      <> fts_text (has_conditions || not (is_empty_text q.rls_condition)) rank q.fts_conditions
      <> order_text rank q.order
      <> limit_text q.limit q.offset
