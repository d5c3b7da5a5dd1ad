-- ===== src/Rest/Tests/Policies.antt =====
-- A request with an RLS condition.
use sblite.Prelude.{◌≡◌, refl, false, codes, map, join, ◌++◌}
use sblite.Rest.Conditions.{quote_identifier, logical_to_sql, logical_sql}
use sblite.Rest.Builder.{is_empty_text}
use sblite.Rest.Builder.Sorted.{sort_fields}
use sblite.Rest.Builder.Statements.{
  build_update_query, build_delete_query, build_count_query, assignment, keys_of,
}
use sblite.Rest.Builder.Policies.{all_conditions, IsFilled, row_statements-policy}
use sblite.Rest.Tests.{as_texts, request, written}

has_policy : is_empty_text request.rls_condition ≡ false
unfolding is_empty_text
has_policy = refl

logical_filter_has_text : IsFilled as_texts request
unfolding is_empty_text logical_to_sql logical_sql
logical_filter_has_text = (refl, tt)

row_statements-policy_example :
    ((build_update_query as_texts request written).0
      ≡ codes "UPDATE "
        ++ (quote_identifier (codes "u")
            ++ (codes " SET "
                ++ (join (codes ", ") (map assignment (keys_of (sort_fields written)))
                    ++ (codes " WHERE "
                        ++ join (codes " AND ") (all_conditions as_texts request))))))
    × ((build_delete_query as_texts request).0
        ≡ codes "DELETE FROM "
          ++ (quote_identifier (codes "u")
              ++ (codes " WHERE " ++ join (codes " AND ") (all_conditions as_texts request))))
    × ((build_count_query as_texts request).0
        ≡ codes "SELECT COUNT(*) FROM "
          ++ (quote_identifier (codes "u")
              ++ (codes " WHERE " ++ join (codes " AND ") (all_conditions as_texts request))))
row_statements-policy_example =
    row_statements-policy as_texts request written has_policy logical_filter_has_text
