-- ===== src/Rest/Tests.antt =====
-- Small inputs for requests, and instances of the theorems.
mod Policies
use sblite.Prelude.{
  Text, codes, ◌≡◌, refl, arith, [], ◌∷◌, ◌++◌, some, none, true, false, All, lookup, cut, List,
  Dict, ◌≢◌, comes_before, replace_from, has_prefix, join, str_eq, ok, err, Bool, cut_text, drop,
}
use sblite.Numbers.{pos}
use sblite.Values.{Any, Conversions, text, bool}
use sblite.Rest.Filters.{
  Filter, simple_filter, valid_operators, parse_filter, filter_on, path_parts, parse_fts_filter,
  FtsFilter, parse_fts_operator, parens, fts_operators, parse_operator, is_fts_operator,
  parse_json_path_filter,
}
use sblite.Rest.Lists.{LogicalFilter}
use sblite.Rest.Conditions.{
  convert_value, quote_identifier, to_sql, quoted_column, placeholders, operator_sql, with_value,
  sql_operator, convert_value,
}
use sblite.Rest.Conditions.Params.{Binds, SqlBinds, constant, after, params}
use sblite.Rest.Builder.{Query, FtsCondition, keep_sql, rls_text, also, is_empty_text, join_sql}
use sblite.Rest.Builder.Statements.{
  updated_keys, build_insert_query, build_upsert_query, build_update_query, build_delete_query,
  build_count_query, build_select_query, insert_text, filtered, where_text, has_filters,
  row_conditions, on_conflict, kept, conflict_columns, keys_of, values_of, quoted_names,
  update_clauses, updated_keys, is_listed, clause_keys, update_clause,
}
use sblite.Rest.Builder.Bound.{build_upsert_query-SqlBinds}
use sblite.Rest.Builder.Bound.Rows.{row_statements-SqlBinds}
use sblite.Rest.Builder.Bound.Select.{build_select_query-SqlBinds}
use sblite.Rest.Builder.Order.{statements-Reordered, swapped}
use sblite.Rest.Parsing.{
  parse_filter-text, parse_filter-fts, parse_filter-no_fts, path_parts-some, parse_filter-related,
}
use sblite.Rest.Builder.Sorted.{sort_fields, insert_field}
use sblite.Rest.Builder.Search.{
  FtsManager, build_fts_condition, build_fts_condition-SqlBinds, with_index, with_query,
  fts_condition, index_of, or_found,
}

abbrev pub as_texts : Conversions
as_texts = record {
  parse_float = λ s. none;
  parse_int = λ s. none;
  atoi = λ s. none;
  float_of_int = λ n. 0;
  float_of_int64 = λ n. 0;
  float_eq = λ a b. false;
  float_lt = λ a b. false;
  sprint = λ v. [];
  trim_space = λ s. s;
}

abbrev pub quoted : Text → Text
quoted s = b'"' ∷ (s ++ b'"' ∷ [])

abbrev adult : Filter
adult = simple_filter (codes "age") (codes "gte") (codes "18")

abbrev in_path : Filter
in_path = record (simple_filter (codes "d") (codes "eq") (codes "it's")) {
  json_path = codes "$.k";
  json_text = true;
}

abbrev either : LogicalFilter
either = record { operator = codes "or"; filters = adult ∷ in_path ∷ [] }

abbrev matched : FtsCondition
matched = record {
  sql = codes "rowid IN (SELECT rowid FROM \"u_fts\" WHERE \"u_fts\" MATCH ?)";
  args = text (codes "cat") ∷ [];
  column = codes "bio";
  fts_table = codes "u_fts";
  fts_query = codes "cat";
}

abbrev pub request : Query
request = record {
  table = codes "u";
  select = codes "id" ∷ codes "k:d->k" ∷ [];
  filters = adult ∷ in_path ∷ [];
  fts_conditions = matched ∷ [];
  logical_filters = either ∷ [];
  order = (record { column = codes "id"; desc = true; related_table = [] }) ∷ [];
  limit = pos 10;
  offset = pos 0;
  rls_condition = codes "(o='ann')";
}

rls_is_closed : Binds (codes "(o='ann')") 0
unfolding after params
rls_is_closed = constant (codes "(o='ann')") 0 refl refl

name_is_closed : Binds (quoted (codes "u_fts")) 0
unfolding after params
name_is_closed = constant (quoted (codes "u_fts")) 0 refl refl

matched_is_closed : SqlBinds (matched.sql, matched.args)
unfolding after params
matched_is_closed = record { binds = constant matched.sql 1 refl refl }

abbrev path_plain : All (λ c. c ≢ b'\'') (codes "$.k")
path_plain = (omega arith, (omega arith, (omega arith, tt)))

build_select_query-SqlBinds_example : SqlBinds (build_select_query as_texts quoted request)
build_select_query-SqlBinds_example =
    build_select_query-SqlBinds as_texts quoted request (tt, (path_plain, tt))
      ((tt, (path_plain, tt)), tt) rls_is_closed
      (
        (omega arith, (omega arith, tt)),
        (
          (
            omega arith,
            (omega arith, (omega arith, (omega arith, (omega arith, (omega arith, tt))))),
          ),
          tt,
        ),
      )
      (matched_is_closed, tt) (name_is_closed, tt)

abbrev written : Dict Any
written = (codes "n", text (codes "x'y")) ∷ (codes "a", bool true) ∷ []

row_statements-SqlBinds_example :
    SqlBinds (build_update_query as_texts request written)
    × SqlBinds (build_delete_query as_texts request)
    × SqlBinds (build_count_query as_texts request)
row_statements-SqlBinds_example =
    row_statements-SqlBinds as_texts request (tt, (path_plain, tt)) ((tt, (path_plain, tt)), tt)
      rls_is_closed written

build_upsert_query-SqlBinds_example :
    SqlBinds (build_upsert_query (codes "u\"v") written (codes "a" ∷ []) false)
build_upsert_query-SqlBinds_example =
    build_upsert_query-SqlBinds (codes "u\"v") written (codes "a" ∷ []) false

upsert_text : build_upsert_query (codes "u") written (codes "a" ∷ []) false ≡ (
  codes
      "INSERT INTO \"u\" (\"a\", \"n\") VALUES (?, ?) ON CONFLICT (\"a\") DO UPDATE SET \"n\" = excluded.\"n\"",
  bool true ∷ text (codes "x'y") ∷ [],
)
unfolding build_upsert_query insert_text sort_fields insert_field comes_before on_conflict
    conflict_columns keys_of values_of quoted_names quote_identifier replace_from has_prefix
    placeholders join update_clauses updated_keys is_listed clause_keys update_clause str_eq
upsert_text = refl

delete_text :
    build_delete_query as_texts (record request { filters = adult ∷ []; logical_filters = [] })
    ≡ (codes "DELETE FROM \"u\" WHERE \"age\" >= ? AND (o='ann')", text (codes "18") ∷ [])
unfolding build_delete_query filtered where_text has_filters row_conditions kept keep_sql rls_text
    also is_empty_text join_sql to_sql quoted_column operator_sql with_value sql_operator lookup
    valid_operators convert_value quote_identifier replace_from has_prefix str_eq
delete_text = refl

statements-Reordered_example :
    (build_insert_query (codes "u") written
      ≡ build_insert_query
          (codes "u")
          ((codes "a", bool true) ∷ (codes "n", text (codes "x'y")) ∷ []))
    × (build_upsert_query (codes "u") written [] true
        ≡ build_upsert_query
            (codes "u")
            ((codes "a", bool true) ∷ (codes "n", text (codes "x'y")) ∷ [])
            []
            true)
    × (build_update_query as_texts request written
        ≡ build_update_query as_texts request
            ((codes "a", bool true) ∷ (codes "n", text (codes "x'y")) ∷ []))
statements-Reordered_example =
    statements-Reordered as_texts request (codes "u") [] true swapped
      (unfold lookup str_eq in (refl, (refl, tt)))

age_has_no_equals : cut b'=' (codes "age") ≡ none
unfolding cut
age_has_no_equals = refl

gte_is_valid : lookup (codes "gte") valid_operators ≡ some (codes ">=")
unfolding lookup valid_operators str_eq
gte_is_valid = refl

age_is_plain : (cut b'.' (codes "age") ≡ none) × (cut_text (codes "->") (codes "age") ≡ none)
unfolding cut cut_text has_prefix
age_is_plain = (refl, refl)

parse_filter-text_example :
    parse_filter (codes "age=gte.1.8")
    ≡ ok (simple_filter (codes "age") (codes "gte") (codes "1.8"))
parse_filter-text_example =
    parse_filter-text (codes "age") (codes "gte") (codes "1.8") (codes ">=") age_has_no_equals
      age_is_plain.0 age_is_plain.1 gte_is_valid

city_age_is_related :
    (cut b'=' (codes "city.age") ≡ none)
    × (cut b'.' (codes "city") ≡ none)
    × (cut_text (codes "->") (codes "city.age") ≡ none)
unfolding cut cut_text has_prefix
city_age_is_related = (refl, refl, refl)

parse_filter-related_example :
    parse_filter (codes "city.age=gte.18")
    ≡ ok (record (simple_filter (codes "city.age") (codes "gte") (codes "18")) {
      related_table = codes "city";
      related_column = codes "age";
    })
parse_filter-related_example =
    let (no_equals, undotted, no_path) = city_age_is_related in
    parse_filter-related (codes "city") (codes "age") (codes "gte") (codes "18") (codes ">=")
      no_equals undotted no_path gte_is_valid

abbrev search_in_bio : FtsFilter
search_in_bio = record {
  column = codes "bio";
  operator = codes "plfts";
  query = codes "cat";
  config = codes "en";
}

bio_is_searched : parse_fts_filter (codes "bio=plfts(en).cat") ≡ ok (some search_in_bio)
unfolding parse_fts_filter cut parse_fts_operator parens fts_operators str_eq
bio_is_searched = refl

parse_filter-fts_example :
    (e : Text) × (parse_filter (codes "bio=plfts(en).cat") ≡ err (codes "fts_operator:" ++ e))
parse_filter-fts_example =
    parse_filter-fts (codes "bio=plfts(en).cat") search_in_bio bio_is_searched

path_parts-some_example : (r : List Text × Bool) × (path_parts 9 false (codes "->a->>b") ≡ some r)
path_parts-some_example = path_parts-some 9 false (codes "->a->>b") (omega arith)

keys_in_path : path_parts 9 false (codes "->a->>b") ≡ some (codes "a" ∷ codes "b" ∷ [], true)
unfolding path_parts cut_text drop has_prefix
keys_in_path = refl

age_is_parsed : parse_filter (codes "age=gte.18") ≡ ok adult
unfolding parse_filter parse_operator is_fts_operator parse_fts_operator parens fts_operators cut
    lookup valid_operators str_eq filter_on parse_json_path_filter cut_text has_prefix
age_is_parsed = refl

parse_filter-no_fts_example : parse_fts_filter (codes "age=gte.18") ≡ ok none
parse_filter-no_fts_example = parse_filter-no_fts (codes "age=gte.18") adult age_is_parsed

-- One index, named after its column, and queries that are taken as they are.
abbrev indexes : FtsManager
indexes = record {
  get_index = λ table column. err (codes "not found");
  find_index_for_column = λ table column. ok (some column);
  to_fts5_query = λ type query. query;
  get_fts_table_name = λ table index. codes "u_fts";
}

bio_is_indexed : build_fts_condition quoted (some indexes) (codes "u") search_in_bio ≡ ok matched
unfolding build_fts_condition with_index with_query fts_condition index_of or_found
bio_is_indexed = refl

build_fts_condition-SqlBinds_example : SqlBinds (matched.sql, matched.args)
build_fts_condition-SqlBinds_example =
    build_fts_condition-SqlBinds quoted (some indexes) (codes "u") search_in_bio matched
      bio_is_indexed name_is_closed
