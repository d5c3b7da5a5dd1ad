-- ===== src/Rest/Builder/Policies.antt =====
-- The place of the RLS condition in the statements of internal/rest/builder.go.
use sblite.Prelude.{
  Text, codes, ◌≡◌, refl, ap, sym, ◌∙◌, ◌++◌, append_assoc, Dict, false, true, join, map, List, [],
  ◌∷◌, All,
}
use sblite.Values.{Any, Conversions}
use sblite.Rest.Filters.{Filter}
use sblite.Rest.Lists.{LogicalFilter}
use sblite.Rest.Conditions.{Sql, quote_identifier, to_sql, logical_to_sql}
use sblite.Rest.Builder.{Query, also, rls_text, is_empty_text, keep_sql, join_sql, ◌<>◌}
use sblite.Rest.Builder.Sorted.{sort_fields}
use sblite.Rest.Builder.Statements.{
  assignment, keys_of, filtered, has_filters, where_text, row_conditions, build_update_query,
  build_delete_query, build_count_query, kept,
}

-- The texts of conditions that are SQL with arguments.
abbrev pub texts_of : List Sql → List Text
texts_of xs = map (λ x. x.0) xs

join_sql-texts_of :
    (separator : Text) (xs : List Sql) → (join_sql separator xs).0 ≡ join separator (texts_of xs)
unfolding join_sql join
join_sql-texts_of separator [] = refl
join_sql-texts_of separator (x ∷ []) = refl
join_sql-texts_of separator (x ∷ y ∷ r) =
    ap (λ s. x.0 ++ (separator ++ s)) (join_sql-texts_of separator (y ∷ r))

-- One more part at the end.
join-append :
    (separator s last : Text) (parts : List Text)
    → join separator (s ∷ (parts ++ last ∷ [])) ≡ join separator (s ∷ parts) ++ (separator ++ last)
unfolding join
join-append separator s last [] = refl
join-append separator s last (t ∷ parts) =
    let joined = join separator (t ∷ parts) in
    ap (λ r. s ++ (separator ++ r)) (join-append separator t last parts)
    ∙ sym (
        append_assoc s (separator ++ joined) (separator ++ last)
        ∙ ap (λ r. s ++ r) (append_assoc separator joined (separator ++ last)))

kept-filled : (xs : List Sql) → All (λ x. is_empty_text x.0 ≡ false) xs → kept xs ≡ xs
unfolding kept keep_sql
kept-filled [] _ = refl
kept-filled (x ∷ xs) (h, hs) = rw (h, kept-filled xs hs) refl

-- The conditions of a statement, the policies' condition behind the request's.
abbrev pub all_conditions : Conversions → Query → List Text
all_conditions conv q =
    texts_of (map (to_sql conv) q.filters ++ map (logical_to_sql conv) q.logical_filters)
    ++ q.rls_condition ∷ []

where_policy :
    (x : Sql) (xs : List Sql) (condition : Text)
    → is_empty_text condition ≡ false
    → (where_text true (x ∷ xs) <> rls_text true condition).0
      ≡ codes " WHERE " ++ join (codes " AND ") (texts_of (x ∷ xs) ++ condition ∷ [])
unfolding where_text rls_text also
where_policy x xs condition restricted =
    rw
      (
        restricted,
        join_sql-texts_of (codes " AND ") (x ∷ xs),
        join-append (codes " AND ") x.0 condition (texts_of xs),
      )
      refl

module _ (conv : Conversions) (q : Query) where
  -- Every logical filter has a text.
  abbrev pub IsFilled : Type 0
  IsFilled = All (λ x. is_empty_text x.0 ≡ false) (map (logical_to_sql conv) q.logical_filters)

  filtered-policy :
      (fs : List Filter) (lfs : List LogicalFilter)
      → q.filters ≡ fs
      → q.logical_filters ≡ lfs
      → is_empty_text q.rls_condition ≡ false
      → IsFilled
      → (filtered conv q).0 ≡ codes " WHERE " ++ join (codes " AND ") (all_conditions conv q)
  unfolding filtered row_conditions has_filters
  filtered-policy (f ∷ fs) lfs e g restricted filled =
      rw (filtered, row_conditions, has_filters, kept-filled _ filled, e)
        (where_policy (to_sql conv f)
          (map (to_sql conv) fs ++ map (logical_to_sql conv) q.logical_filters) q.rls_condition
          restricted)
  filtered-policy [] (lf ∷ lfs) e g restricted filled =
      rw (filtered, row_conditions, has_filters, kept-filled _ filled, e, g)
        (where_policy (logical_to_sql conv lf) (map (logical_to_sql conv) lfs) q.rls_condition
          restricted)
  filtered-policy [] [] e g restricted filled =
      unfold where_text rls_text also join in
      rw (filtered, row_conditions, has_filters, kept-filled _ filled, e, g, restricted) refl

  -- UPDATE, DELETE and SELECT COUNT(*) for a request with an RLS condition, where every logical filter
  -- has a text: WHERE, and behind it the conditions of the filters, those of the logical filters and
  -- the RLS condition, in that order with AND between them, and nothing else.
  pub row_statements-policy :
      (row : Dict Any)
      → is_empty_text q.rls_condition ≡ false
      → IsFilled
      → ((build_update_query conv q row).0
          ≡ codes "UPDATE "
            ++ (quote_identifier q.table
                ++ (codes " SET "
                    ++ (join (codes ", ") (map assignment (keys_of (sort_fields row)))
                        ++ (codes " WHERE " ++ join (codes " AND ") (all_conditions conv q))))))
        × ((build_delete_query conv q).0
            ≡ codes "DELETE FROM "
              ++ (quote_identifier q.table
                  ++ (codes " WHERE " ++ join (codes " AND ") (all_conditions conv q))))
        × ((build_count_query conv q).0
            ≡ codes "SELECT COUNT(*) FROM "
              ++ (quote_identifier q.table
                  ++ (codes " WHERE " ++ join (codes " AND ") (all_conditions conv q))))
  unfolding build_update_query build_delete_query build_count_query
  row_statements-policy row restricted filled =
      let same = filtered-policy q.filters q.logical_filters refl refl restricted filled in
      let table = quote_identifier q.table in
      let set = join (codes ", ") (map assignment (keys_of (sort_fields row))) in
      (
        ap (λ r. codes "UPDATE " ++ r)
            (append_assoc table (codes " SET ") (set ++ (filtered conv q).0)
              ∙ ap (λ r. table ++ (codes " SET " ++ (set ++ r))) same),
        ap (λ r. codes "DELETE FROM " ++ r) (ap (λ r. table ++ r) same),
        ap (λ r. codes "SELECT COUNT(*) FROM " ++ r) (ap (λ r. table ++ r) same),
      )
