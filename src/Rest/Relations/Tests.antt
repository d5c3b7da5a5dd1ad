-- ===== src/Rest/Relations/Tests.antt =====
-- Small inputs for the SELECT with relations, and an instance of the theorem.
use sblite.Prelude.{
  codes, ◌≡◌, refl, [], ◌∷◌, none, true, false, List, ok, err, str_eq, has_prefix, join,
  replace_from,
}
use sblite.Numbers.{pos, print_int, digits}
use sblite.Rest.Lists.{OrderBy}
use sblite.Rest.Builder.{
  Query, direction, find_fts_order_column, fts_for, is_empty_text, is_empty_sql, rls_text, fts_text,
  limit_text,
}
use sblite.Rest.Builder.Columns.{is_star}
use sblite.Rest.Builder.Statements.{build_select_query, kept, where_text}
use sblite.Rest.Relations.{
  Relationships, joined_tables, joined_table, find_relationship, find_named, Relationship,
}
use sblite.Rest.Relations.Statement.{
  relation_orders, build_select_query_with_relations, has_related_filters, is_related_filter,
  has_related_ordering, related_conditions, relation_statement, has_joined, relation_columns,
  left_joins, qualified, own_conditions, relation_order_text, relation_orders,
  build_related_filter_exists,
}
use sblite.Rest.Relations.Plain.{build_select_query_with_relations-plain}
use sblite.Rest.Tests.{as_texts, quoted, request}
use sblite.Rest.Conditions.{quote_identifier}
use sblite.Rest.Filters.{Filter, simple_filter}
use sblite.Rest.Conditions.Params.{SqlBinds}
use sblite.Rest.Relations.Bound.{build_related_filter_exists-SqlBinds}

abbrev listing : Query
listing = record request { select = codes "*" ∷ [] }

abbrev no_relationships : Relationships
no_relationships = λ table. err (codes "no such table")

own_filters : has_related_filters listing.filters ≡ false
unfolding has_related_filters is_related_filter str_eq
own_filters = refl

own_orders : has_related_ordering listing.order ≡ false
unfolding has_related_ordering str_eq
own_orders = refl

all_columns : is_star listing.select ≡ true
unfolding is_star str_eq
all_columns = refl

no_rank : find_fts_order_column listing.order listing.fts_conditions ≡ none
unfolding find_fts_order_column fts_for is_empty_text str_eq
no_rank = refl

build_select_query_with_relations-plain_example :
    build_select_query_with_relations as_texts no_relationships listing
    ≡ ok (build_select_query as_texts quoted listing)
build_select_query_with_relations-plain_example =
    build_select_query_with_relations-plain as_texts quoted no_relationships listing own_filters
      own_orders all_columns no_rank

-- An order on a table that is not related, and one on a table that is.
abbrev cities : Relationships
cities = λ table. ok (
    (record {
      name = codes "country";
      local_column = codes "c";
      foreign_table = codes "country";
      foreign_column = codes "id";
      kind = codes "many-to-one";
    })
    ∷ [])

abbrev ordered : List OrderBy
ordered =
    (record { column = codes "x"; desc = false; related_table = codes "mayor" })
    ∷ (record { column = codes "name"; desc = true; related_table = codes "country" })
    ∷ []

orders_by_the_wrong_column :
    build_select_query_with_relations as_texts cities (record listing {
      filters = [];
      logical_filters = [];
      fts_conditions = [];
      rls_condition = [];
      limit = pos 0;
      order = ordered;
    })
    ≡ ok (
      codes
          "SELECT \"u\".* FROM \"u\" LEFT JOIN \"country\" AS \"_rel0\" ON \"u\".\"c\" = \"_rel0\".\"id\" ORDER BY \"_rel0\".\"x\" ASC",
      [],
    )
unfolding build_select_query_with_relations joined_tables joined_table find_relationship find_named
    related_conditions relation_statement has_joined relation_columns is_star left_joins qualified
    quote_identifier replace_from has_prefix own_conditions kept where_text is_empty_sql rls_text
    is_empty_text fts_text relation_order_text relation_orders direction join limit_text print_int
    digits str_eq
orders_by_the_wrong_column = refl

abbrev in_france : Filter
in_france = record (simple_filter (codes "country.name") (codes "in") (codes "(Fr,It)")) {
  related_table = codes "country";
  related_column = codes "na\"me";
}

abbrev to_country : Relationship
to_country = record {
  name = codes "country";
  local_column = codes "c";
  foreign_table = codes "country";
  foreign_column = codes "id";
  kind = codes "many-to-one";
}

build_related_filter_exists-SqlBinds_example :
    SqlBinds (build_related_filter_exists as_texts (codes "u") in_france to_country)
build_related_filter_exists-SqlBinds_example =
    build_related_filter_exists-SqlBinds as_texts (codes "u") in_france to_country
