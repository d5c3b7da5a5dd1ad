-- ===== src/Rest/Builder/Bound/Rows.antt =====
-- SELECT, UPDATE, DELETE and SELECT COUNT(*) of internal/rest/builder.go.
use sblite.Prelude.{
  if_holds, Text, codes, refl, arith, [], ◌∷◌, ◌++◌, List, All, All-append, map, join, length, Bool,
  Dict,
}
use sblite.Values.{Any, Conversions}
use sblite.Rest.Conditions.{Sql, quote_identifier, to_sql, logical_to_sql}
use sblite.Rest.Conditions.Params.{
  Binds, Binds-append, Binds-nil, BindAll, no_texts, and_text, SqlBinds, after, params, constant,
  quote_identifier-Binds, join-Binds,
}
use sblite.Rest.Conditions.Bound.{IsPlainPath, to_sql-SqlBinds, logical_to_sql-SqlBinds}
use sblite.Rest.Builder.{Query, ◌<>◌, plain, join_sql, rls_text}
use sblite.Rest.Builder.Sorted.{sort_fields}
use sblite.Rest.Builder.Statements.{
  where_text, assignment, filtered, build_update_query, kept, row_conditions, build_delete_query,
  keys_of, has_filters, build_count_query, values_of,
}
use sblite.Rest.Builder.Bound.{
  joined-SqlBinds, plain-SqlBinds, join_sql-SqlBinds, All-images, kept-SqlBinds, kept, keys_of,
  values_of,
}
use sblite.Rest.Builder.Bound.Clauses.{rls_text-SqlBinds}

pub where_text-SqlBinds :
    (has_conditions : Bool) (conditions : List Sql)
    → All SqlBinds conditions
    → SqlBinds (where_text has_conditions conditions)
unfolding where_text after params
where_text-SqlBinds has_conditions conditions h =
    if_holds SqlBinds has_conditions _ _
      (joined-SqlBinds (plain (codes " WHERE ")) (join_sql (codes " AND ") conditions)
        (plain-SqlBinds _ (constant (codes " WHERE ") 0 refl refl))
        (join_sql-SqlBinds (codes " AND ") conditions (constant (codes " AND ") 0 refl refl) h))
      (plain-SqlBinds [] Binds-nil)

-- " = ?" behind each name.
assignments-BindAll :
    (row : Dict Any) → BindAll (map assignment (keys_of row)) (length (values_of row))
unfolding assignment keys_of values_of after params
assignments-BindAll [] = no_texts
assignments-BindAll ((k, v) ∷ row) =
    and_text
      (Binds-append (quote_identifier k) (codes " = ?") (quote_identifier-Binds k)
        (constant (codes " = ?") 1 refl refl))
      (assignments-BindAll row) (omega arith)

assignments-SqlBinds :
    (row : Dict Any) → SqlBinds (join (codes ", ") (map assignment (keys_of row)), values_of row)
unfolding after params
assignments-SqlBinds row = record {
  binds =
      join-Binds (codes ", ") (map assignment (keys_of row)) (length (values_of row))
        (constant (codes ", ") 0 refl refl) (assignments-BindAll row);
}

module _ (conv : Conversions) (q : Query) (filters_plain : All IsPlainPath q.filters)
    (logical_plain : All (λ lf. All IsPlainPath lf.filters) q.logical_filters)
    (rls : Binds q.rls_condition 0) where
  pub filters-SqlBinds : All SqlBinds (map (to_sql conv) q.filters)
  filters-SqlBinds =
      All-images IsPlainPath SqlBinds (to_sql conv) q.filters (to_sql-SqlBinds conv) filters_plain

  pub logical-SqlBinds : All SqlBinds (kept (map (logical_to_sql conv) q.logical_filters))
  logical-SqlBinds = kept-SqlBinds (map (logical_to_sql conv) q.logical_filters) (
      All-images (λ lf. All IsPlainPath lf.filters) SqlBinds (logical_to_sql conv) q.logical_filters
        (logical_to_sql-SqlBinds conv) logical_plain)

  filtered-SqlBinds : SqlBinds (filtered conv q)
  unfolding filtered row_conditions
  filtered-SqlBinds =
      let conditions =
        map (to_sql conv) q.filters ++ kept (map (logical_to_sql conv) q.logical_filters) in
      joined-SqlBinds (where_text (has_filters conv q) conditions)
        (rls_text (has_filters conv q) q.rls_condition)
        (where_text-SqlBinds (has_filters conv q) conditions
          (All-append SqlBinds _ _ filters-SqlBinds logical-SqlBinds))
        (rls_text-SqlBinds (has_filters conv q) q.rls_condition rls)

  head-SqlBinds :
      (head : Text)
      → Binds head 0
      → SqlBinds (plain (head ++ quote_identifier q.table) <> filtered conv q)
  head-SqlBinds head h =
      joined-SqlBinds (plain (head ++ quote_identifier q.table)) (filtered conv q)
        (plain-SqlBinds _
          (Binds-append head (quote_identifier q.table) h (quote_identifier-Binds q.table)))
        filtered-SqlBinds

  -- UPDATE, DELETE and SELECT COUNT(*) have as many parameters as arguments and leave no quote open,
  -- whatever the table, the columns, the written values and the filters' values are. The RLS condition
  -- has neither a parameter nor an open quote, and the filters' JSON paths have no single quote.
  pub row_statements-SqlBinds :
      (row : Dict Any)
      → SqlBinds (build_update_query conv q row)
        × SqlBinds (build_delete_query conv q)
        × SqlBinds (build_count_query conv q)
  unfolding build_update_query build_delete_query build_count_query after params
  row_statements-SqlBinds row =
      let sorted = sort_fields row in
      let head = codes "UPDATE " ++ (quote_identifier q.table ++ codes " SET ") in
      (
        joined-SqlBinds (plain head)
            ((join (codes ", ") (map assignment (keys_of sorted)), values_of sorted)
              <> filtered conv q)
            (plain-SqlBinds head (
              Binds-append (codes "UPDATE ") (quote_identifier q.table ++ codes " SET ")
                (constant (codes "UPDATE ") 0 refl refl)
                (Binds-append (quote_identifier q.table) (codes " SET ")
                  (quote_identifier-Binds q.table) (constant (codes " SET ") 0 refl refl))))
            (joined-SqlBinds (join (codes ", ") (map assignment (keys_of sorted)), values_of sorted)
              (filtered conv q) (assignments-SqlBinds sorted) filtered-SqlBinds),
        head-SqlBinds (codes "DELETE FROM ") (constant (codes "DELETE FROM ") 0 refl refl),
        head-SqlBinds (codes "SELECT COUNT(*) FROM ")
            (constant (codes "SELECT COUNT(*) FROM ") 0 refl refl),
      )
