-- ===== src/Rest/Relations/Plain.antt =====
-- BuildSelectQueryWithRelations beside BuildSelectQuery (internal/rest/builder.go), for a request that
-- names no related table.
use sblite.Prelude.{
  ℕ, Text, codes, ◌≡◌, refl, ap, sym, ◌∙◌, arith, join, none, List, [], ◌∷◌, map, true, false, ok,
  Bool-cases, inl, inr,
}
use sblite.Values.{Conversions}
use sblite.Rest.Filters.{Filter}
use sblite.Rest.Lists.{OrderBy}
use sblite.Rest.Conditions.{to_sql}
use sblite.Rest.Builder.{
  Query, plain, ◌<>◌, join_sql, order_piece, order_text, find_fts_order_column, is_rank_column,
  keep_sql, is_empty_text,
}
use sblite.Rest.Builder.Columns.{is_star, select_columns}
use sblite.Rest.Builder.Statements.{
  kept, build_select_query, select_conditions, select_text, rank_join,
}
use sblite.Rest.Relations.{Relationships, joined_tables}
use sblite.Rest.Relations.Statement.{
  has_related_filters, has_related_ordering, own_conditions, related_conditions, relation_orders,
  relation_order_text, build_select_query_with_relations, is_related_filter, relation_statement,
  has_joined, left_joins, relation_columns,
}

joined_tables-none :
    (rels : Relationships) (table : Text) (index : ℕ) (os : List OrderBy)
    → has_related_ordering os ≡ false
    → joined_tables rels table index os ≡ ok []
unfolding joined_tables has_related_ordering
joined_tables-none rels table index [] h = refl
joined_tables-none rels table index (o ∷ os) h =
    ground (arith, joined_tables-none rels table index os)

related_conditions-none :
    (conv : Conversions) (rels : Relationships) (table : Text) (fs : List Filter)
    → has_related_filters fs ≡ false
    → related_conditions conv rels table fs ≡ ok []
unfolding related_conditions has_related_filters is_related_filter
related_conditions-none conv rels table [] h = refl
related_conditions-none conv rels table (f ∷ fs) h =
    ground (arith, related_conditions-none conv rels table fs)

related-parts :
    (f : Filter) (fs : List Filter)
    → has_related_filters (f ∷ fs) ≡ false
    → (is_related_filter f ≡ false) × (has_related_filters fs ≡ false)
unfolding has_related_filters
related-parts f fs h = elim (Bool-cases (is_related_filter f)) [
  | inl related ↦ cc (rw (has_related_filters, related) at h)
  | inr own ↦ (own, rw (has_related_filters, own) at h)
]

own_conditions-kept :
    (conv : Conversions) (table : Text) (fs : List Filter)
    → has_related_filters fs ≡ false
    → own_conditions conv false table fs ≡ kept (map (to_sql conv) fs)
unfolding own_conditions kept keep_sql
own_conditions-kept conv table [] h = refl
own_conditions-kept conv table (f ∷ fs) h =
    let (own, others) = related-parts f fs h in
    let rest = own_conditions-kept conv table fs others in
    elim (Bool-cases (is_empty_text (to_sql conv f).0)) [
      | inl empty ↦ rw (own_conditions, kept, keep_sql, own, empty) rest
      | inr full ↦ rw (own_conditions, kept, keep_sql, own, full) (ap (λ r. to_sql conv f ∷ r) rest)
    ]

join_sql-plain :
    (separator : Text) (texts : List Text)
    → join_sql separator (map plain texts) ≡ plain (join separator texts)
unfolding join_sql join
join_sql-plain separator [] = refl
join_sql-plain separator (s ∷ []) = refl
join_sql-plain separator (s ∷ t ∷ texts) =
    ap (λ x. plain s <> plain separator <> x) (join_sql-plain separator (t ∷ texts))

relation_orders-plain :
    (table : Text) (os : List OrderBy)
    → has_related_ordering os ≡ false
    → map plain (relation_orders false table [] os) ≡ map (order_piece none) os
unfolding relation_orders has_related_ordering order_piece is_rank_column
relation_orders-plain table [] h = refl
relation_orders-plain table (o ∷ os) h = ground (arith, relation_orders-plain table os)

relation_order_text-plain :
    (table : Text) (os : List OrderBy)
    → has_related_ordering os ≡ false
    → plain (relation_order_text false table [] os) ≡ order_text none os
unfolding relation_order_text order_text
relation_order_text-plain table [] h = refl
relation_order_text-plain table (o ∷ os) h =
    let pieces = relation_orders false table [] (o ∷ os) in
    ap (λ x. plain (codes " ORDER BY ") <> x)
      (sym (join_sql-plain (codes ", ") pieces)
        ∙ ap (join_sql (codes ", ")) (relation_orders-plain table (o ∷ os) h))

-- For a request that selects all columns, orders by no search and has no filter and no order on a
-- related table, BuildSelectQueryWithRelations returns the statement of BuildSelectQuery, whatever
-- GetRelationships answers.
pub build_select_query_with_relations-plain :
    (conv : Conversions) (go_quote : Text → Text) (rels : Relationships) (q : Query)
    → has_related_filters q.filters ≡ false
    → has_related_ordering q.order ≡ false
    → is_star q.select ≡ true
    → find_fts_order_column q.order q.fts_conditions ≡ none
    → build_select_query_with_relations conv rels q ≡ ok (build_select_query conv go_quote q)
unfolding build_select_query_with_relations relation_statement build_select_query select_conditions
    has_joined left_joins relation_columns select_text select_columns rank_join
build_select_query_with_relations-plain conv go_quote rels q filters order star unranked =
    rw
      (
        build_select_query_with_relations,
        joined_tables-none rels q.table 0 q.order order,
        related_conditions-none conv rels q.table q.filters filters,
        relation_statement,
        own_conditions-kept conv q.table q.filters filters,
        build_select_query,
        unranked,
        sym (relation_order_text-plain q.table q.order order),
        relation_columns,
        select_columns,
        star,
      )
      refl
