-- ===== src/Rest/Builder/Bound/Select.antt =====
-- BuildSelectQuery of internal/rest/builder.go.
use sblite.Prelude.{
  if_holds, Text, codes, refl, [], ◌∷◌, ◌++◌, List, All, All-append, All-map, map, some, none,
  Option, not, str_eq, ◌||◌, ◌&&◌,
}
use sblite.Values.{Conversions}
use sblite.Rest.Lists.{OrderBy}
use sblite.Rest.Conditions.{quote_identifier}
use sblite.Rest.Conditions.Params.{
  Binds, Binds-append, Binds-nil, SqlBinds, after, params, constant, quote_identifier-Binds,
  join-Binds,
}
use sblite.Rest.Conditions.Bound.{IsPlainPath}
use sblite.Rest.Builder.{
  Query, FtsCondition, ◌<>◌, plain, is_empty_sql, is_empty_text, rls_text, fts_text, order_text,
  limit_text, fts_for, find_fts_order_column,
}
use sblite.Rest.Builder.Columns.{build_select_column, is_star, select_columns}
use sblite.Rest.Builder.Statements.{
  where_text, select_conditions, rank_join, select_text, build_select_query,
}
use sblite.Rest.Builder.Bound.{kept-SqlBinds, joined-SqlBinds, plain-SqlBinds, texts-BindAll}
use sblite.Rest.Builder.Bound.Columns.{NoQuote, OnSome, build_select_column-Binds}
use sblite.Rest.Builder.Bound.Clauses.{
  FtsBinds, rls_text-SqlBinds, fts_text-SqlBinds, order_text-SqlBinds, limit_text-SqlBinds,
}
use sblite.Rest.Builder.Bound.Rows.{where_text-SqlBinds, filters-SqlBinds, logical-SqlBinds}

module _ (P : FtsCondition → Type 0) where
  fts_for-OnSome :
      (column : Text) (cs : List FtsCondition) → All P cs → OnSome P (fts_for column cs)
  unfolding fts_for
  fts_for-OnSome column [] _ = tt
  fts_for-OnSome column (c ∷ cs) (h, hs) =
      if_holds (OnSome P) (str_eq c.column column && not (is_empty_text c.fts_table)) _ _ h
        (fts_for-OnSome column cs hs)

  find-OnSome :
      (os : List OrderBy) (cs : List FtsCondition)
      → All P cs
      → OnSome (λ r. P r.0) (find_fts_order_column os cs)
  unfolding find_fts_order_column
  find-OnSome [] cs h = tt
  find-OnSome (o ∷ os) cs h =
      (elim (fts_for o.column cs)
          as (λ r.
            OnSome P r
            → OnSome (λ (x : FtsCondition × OrderBy). P x.0)
                (elim r [ some c ↦ some (c, o) | none ↦ find_fts_order_column os cs ])) [
                  | some c ↦ λ found. found
                  | none ↦ λ _. find-OnSome os cs h
                ])
        (fts_for-OnSome o.column cs h)

module _ (conv : Conversions) (table : Text) where
  select_text-Binds :
      (rank : Option (FtsCondition × OrderBy)) (columns : List Text)
      → All (λ col. NoQuote (conv.trim_space col)) columns
      → Binds (select_text conv rank table columns) 0
  unfolding select_text select_columns after params
  select_text-Binds none columns h =
      if_holds (λ s. Binds s 0) (is_star columns) _ _ (constant (codes "*") 0 refl refl)
        (join-Binds (codes ", ") (map (λ col. build_select_column (conv.trim_space col)) columns) 0
          (constant (codes ", ") 0 refl refl)
          (texts-BindAll (λ col. build_select_column (conv.trim_space col)) columns
            (All-map (λ col. NoQuote (conv.trim_space col))
              (λ col. Binds (build_select_column (conv.trim_space col)) 0) columns
              (λ col. build_select_column-Binds (conv.trim_space col)) h)))
  select_text-Binds (some found) columns _ =
      Binds-append (quote_identifier table) (codes ".*") (quote_identifier-Binds table)
        (constant (codes ".*") 0 refl refl)

  -- The condition that ranks is one of the query's.
  rank_join-SqlBinds :
      (go_quote : Text → Text) (rank : Option (FtsCondition × OrderBy))
      → OnSome (λ r. Binds (go_quote r.0.fts_table) 0) rank
      → SqlBinds (rank_join go_quote rank table)
  unfolding rank_join after params
  rank_join-SqlBinds go_quote none _ = plain-SqlBinds [] Binds-nil
  rank_join-SqlBinds go_quote (some (c, o)) h =
      let tail = quote_identifier table ++ codes ".rowid = _fts_rank.rowid" in
      let matched = codes " MATCH ?) AS _fts_rank ON " ++ tail in
      record {
        binds =
            Binds-append (codes " INNER JOIN (SELECT rowid, rank FROM ")
              (go_quote c.fts_table ++ (codes " WHERE " ++ (go_quote c.fts_table ++ matched)))
              (constant (codes " INNER JOIN (SELECT rowid, rank FROM ") 0 refl refl)
              (Binds-append (go_quote c.fts_table)
                (codes " WHERE " ++ (go_quote c.fts_table ++ matched)) h
                (Binds-append (codes " WHERE ") (go_quote c.fts_table ++ matched)
                  (constant (codes " WHERE ") 0 refl refl)
                  (Binds-append (go_quote c.fts_table) matched h (
                    Binds-append (codes " MATCH ?) AS _fts_rank ON ") tail
                      (constant (codes " MATCH ?) AS _fts_rank ON ") 1 refl refl)
                      (Binds-append (quote_identifier table) (codes ".rowid = _fts_rank.rowid")
                        (quote_identifier-Binds table)
                        (constant (codes ".rowid = _fts_rank.rowid") 0 refl refl))))));
      }

-- SELECT has as many parameters as arguments and leaves no quote open, whatever the table, the order,
-- the limit and the filters' values are. The RLS condition has neither a parameter nor an open quote,
-- the filters' JSON paths and the columns have no single quote, and each FTS condition has as many
-- parameters as arguments and a table name that %q quotes whole.
pub build_select_query-SqlBinds :
    (conv : Conversions) (go_quote : Text → Text) (q : Query)
    → All IsPlainPath q.filters
    → All (λ lf. All IsPlainPath lf.filters) q.logical_filters
    → Binds q.rls_condition 0
    → All (λ col. NoQuote (conv.trim_space col)) q.select
    → All FtsBinds q.fts_conditions
    → All (λ c. Binds (go_quote c.fts_table) 0) q.fts_conditions
    → SqlBinds (build_select_query conv go_quote q)
unfolding build_select_query select_conditions after params
build_select_query-SqlBinds conv go_quote q filters logical rls columns fts tables =
    let rank = find_fts_order_column q.order q.fts_conditions in
    let conditions = select_conditions conv q in
    let has_conditions = not (is_empty_sql conditions) in
    let limits = limit_text q.limit q.offset in
    let orders = order_text rank q.order <> limits in
    let searches =
      fts_text (has_conditions || not (is_empty_text q.rls_condition)) rank q.fts_conditions
      <> orders in
    let policies = rls_text has_conditions q.rls_condition <> searches in
    let wheres = where_text has_conditions conditions <> policies in
    let joins = rank_join go_quote rank q.table <> wheres in
    let head = codes "SELECT " ++ select_text conv rank q.table q.select in
    let from = codes " FROM " ++ quote_identifier q.table in
    joined-SqlBinds (plain head) (plain from <> joins)
      (plain-SqlBinds head (
        Binds-append (codes "SELECT ") (select_text conv rank q.table q.select)
          (constant (codes "SELECT ") 0 refl refl)
          (select_text-Binds conv q.table rank q.select columns)))
      (joined-SqlBinds (plain from) joins
        (plain-SqlBinds from (
          Binds-append (codes " FROM ") (quote_identifier q.table)
            (constant (codes " FROM ") 0 refl refl) (quote_identifier-Binds q.table)))
        (joined-SqlBinds (rank_join go_quote rank q.table) wheres
          (rank_join-SqlBinds conv q.table go_quote rank
            (find-OnSome (λ c. Binds (go_quote c.fts_table) 0) q.order q.fts_conditions tables))
          (joined-SqlBinds (where_text has_conditions conditions) policies
            (where_text-SqlBinds has_conditions conditions (
              All-append SqlBinds _ _
                (kept-SqlBinds _ (filters-SqlBinds conv q filters logical rls))
                (logical-SqlBinds conv q filters logical rls)))
            (joined-SqlBinds (rls_text has_conditions q.rls_condition) searches
              (rls_text-SqlBinds has_conditions q.rls_condition rls)
              (joined-SqlBinds
                (fts_text (has_conditions || not (is_empty_text q.rls_condition)) rank
                  q.fts_conditions)
                orders
                (fts_text-SqlBinds (has_conditions || not (is_empty_text q.rls_condition)) rank
                  q.fts_conditions fts)
                (joined-SqlBinds (order_text rank q.order) limits (order_text-SqlBinds rank q.order)
                  (limit_text-SqlBinds q.limit q.offset)))))))
