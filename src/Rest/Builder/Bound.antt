-- ===== src/Rest/Builder/Bound.antt =====
-- The statements of internal/rest/builder.go and their arguments.
pub mod Columns
pub mod Clauses
pub mod Rows
pub mod Select
use sblite.Prelude.{
  if_holds, ℕ, Text, codes, ◌≢◌, ◌≡◌, refl, arith, [], ◌∷◌, ◌++◌, List, All, All-append, All-map,
  Dict, map, length, length-append, join, some, none, not, Bool, ◌||◌, true, false, if◌then◌else◌,
  Option, zero, suc, ◌*◌,
}
use sblite.Values.{Any, Conversions}
use sblite.Rest.Filters.{Filter}
use sblite.Rest.Lists.{LogicalFilter, OrderBy}
use sblite.Rest.Conditions.{Sql, quote_identifier, placeholders, to_sql, logical_to_sql}
use sblite.Rest.Conditions.Params.{
  Binds, Binds-append, Binds-eq, Binds-nil, SqlBinds, BindAll, after, no_texts, join-Binds, params,
  and_text, constant, quote_identifier-Binds,
}
use sblite.Rest.Conditions.Bound.{
  IsPlainPath, to_sql-SqlBinds, logical_to_sql-SqlBinds, placeholders-Binds,
}
use sblite.Rest.Builder.{
  Query, FtsCondition, ◌<>◌, plain, join_sql, keep_sql, is_empty_sql, is_empty_text, rls_text,
  fts_text, find_fts_order_column, order_text, limit_text,
}
use sblite.Rest.Builder.Sorted.{sort_fields}
use sblite.Rest.Builder.Statements.{
  kept, quoted_names, update_clauses, on_conflict, insert_text, build_insert_query,
  build_upsert_query, update_clause, values_of, conflict_columns, clause_keys, keys_of,
  updated_keys,
}

pub plain-SqlBinds : (s : Text) → Binds s 0 → SqlBinds (plain s)
plain-SqlBinds s h = record { binds = h }

pub joined-SqlBinds : (x y : Sql) → SqlBinds x → SqlBinds y → SqlBinds (x <> y)
joined-SqlBinds x y hx hy = record {
  binds =
      Binds-eq (x.0 ++ y.0) (omega (arith, length-append x.1 y.1))
        (Binds-append x.0 y.0 hx.binds hy.binds);
}

pub join_sql-SqlBinds :
    (separator : Text) (xs : List Sql)
    → Binds separator 0
    → All SqlBinds xs
    → SqlBinds (join_sql separator xs)
unfolding join_sql
join_sql-SqlBinds separator [] q _ = record { binds = Binds-nil }
join_sql-SqlBinds separator (x ∷ []) q (h, _) = h
join_sql-SqlBinds separator (x ∷ y ∷ r) q (h, hs) =
    joined-SqlBinds x (plain separator <> join_sql separator (y ∷ r)) h (
      joined-SqlBinds (plain separator) (join_sql separator (y ∷ r)) (plain-SqlBinds separator q)
        (join_sql-SqlBinds separator (y ∷ r) q hs))

pub kept-SqlBinds : (xs : List Sql) → All SqlBinds xs → All SqlBinds (kept xs)
unfolding kept keep_sql
kept-SqlBinds [] _ = tt
kept-SqlBinds (x ∷ xs) (h, hs) =
    if_holds (All SqlBinds) (is_empty_text x.0) (kept xs) (x ∷ kept xs) (kept-SqlBinds xs hs)
      (h, kept-SqlBinds xs hs)

-- Each element's property gives that of its image.
pub All-images {ℓ κ} :
    {A B : Type ℓ} (P : A → Type κ) (Q : B → Type κ) (f : A → B) (xs : List A)
    → ((x : A) → P x → Q (f x))
    → All P xs
    → All Q (map f xs)
All-images P Q f [] h _ = tt
All-images P Q f (x ∷ xs) h (hx, hs) = (h x hx, All-images P Q f xs h hs)

pub All-always {ℓ κ} : {A : Type ℓ} (P : A → Type κ) (xs : List A) → ((x : A) → P x) → All P xs
All-always P [] h = tt
All-always P (x ∷ xs) h = (h x, All-always P xs h)

-- Texts that bind nothing.
pub texts-BindAll :
    {A : Type 0} (f : A → Text) (xs : List A) → All (λ x. Binds (f x) 0) xs → BindAll (map f xs) 0
texts-BindAll f [] _ = no_texts
texts-BindAll f (x ∷ xs) (h, hs) = and_text h (texts-BindAll f xs hs) (omega arith)

names-Binds : (names : List Text) → Binds (quoted_names names) 0
unfolding quoted_names after params
names-Binds names =
    join-Binds (codes ", ") (map quote_identifier names) 0 (constant (codes ", ") 0 refl refl) (
      texts-BindAll quote_identifier names
        (All-always (λ k. Binds (quote_identifier k) 0) names quote_identifier-Binds))

clauses-Binds : (conflict keys : List Text) → Binds (update_clauses conflict keys) 0
unfolding update_clauses update_clause after params
clauses-Binds conflict keys =
    let chosen = clause_keys (updated_keys conflict keys) keys in
    join-Binds (codes ", ") (map update_clause chosen) 0 (constant (codes ", ") 0 refl refl) (
      texts-BindAll update_clause chosen (
        All-always (λ k. Binds (update_clause k) 0) chosen
          (λ k.
            Binds-append (quote_identifier k) (codes " = excluded." ++ quote_identifier k)
              (quote_identifier-Binds k)
              (Binds-append (codes " = excluded.") (quote_identifier k)
                (constant (codes " = excluded.") 0 refl refl) (quote_identifier-Binds k)))))

on_conflict-Binds :
    (conflict keys : List Text) (ignore_duplicates : Bool)
    → Binds (on_conflict conflict keys ignore_duplicates) 0
unfolding on_conflict after params
on_conflict-Binds conflict keys ignore_duplicates =
    let action =
      if ignore_duplicates
      then codes ") DO NOTHING"
      else codes ") DO UPDATE SET " ++ update_clauses conflict keys in
    let action_binds : Binds action 0 =
      if_holds (λ s. Binds s 0) ignore_duplicates (codes ") DO NOTHING")
        (codes ") DO UPDATE SET " ++ update_clauses conflict keys)
        (constant (codes ") DO NOTHING") 0 refl refl)
        (Binds-append (codes ") DO UPDATE SET ") (update_clauses conflict keys)
          (constant (codes ") DO UPDATE SET ") 0 refl refl) (clauses-Binds conflict keys)) in
    Binds-append (codes " ON CONFLICT (") (quoted_names conflict ++ action)
      (constant (codes " ON CONFLICT (") 0 refl refl)
      (Binds-append (quoted_names conflict) action (names-Binds conflict) action_binds)

insert_text-SqlBinds : (table : Text) (row : Dict Any) → SqlBinds (insert_text table row)
unfolding insert_text after params
insert_text-SqlBinds table row =
    let marks = placeholders (values_of row) in
    let names = quoted_names (keys_of row) in
    record {
      binds =
          Binds-eq
            (codes "INSERT INTO "
              ++ (quote_identifier table
                  ++ (codes " (" ++ (names ++ (codes ") VALUES (" ++ (marks ++ codes ")"))))))
            (omega arith)
            (Binds-append (codes "INSERT INTO ")
              (quote_identifier table
                ++ (codes " (" ++ (names ++ (codes ") VALUES (" ++ (marks ++ codes ")")))))
              (constant (codes "INSERT INTO ") 0 refl refl)
              (Binds-append (quote_identifier table)
                (codes " (" ++ (names ++ (codes ") VALUES (" ++ (marks ++ codes ")"))))
                (quote_identifier-Binds table)
                (Binds-append (codes " (") (names ++ (codes ") VALUES (" ++ (marks ++ codes ")")))
                  (constant (codes " (") 0 refl refl)
                  (Binds-append names (codes ") VALUES (" ++ (marks ++ codes ")"))
                    (names-Binds (keys_of row))
                    (Binds-append (codes ") VALUES (") (marks ++ codes ")")
                      (constant (codes ") VALUES (") 0 refl refl)
                      (Binds-append marks (codes ")") (placeholders-Binds (values_of row))
                        (constant (codes ")") 0 refl refl)))))));
    }

-- An INSERT has as many parameters as arguments and leaves no quote open, whatever the table, the
-- columns and the values are.
pub build_insert_query-SqlBinds :
    (table : Text) (row : Dict Any) → SqlBinds (build_insert_query table row)
unfolding build_insert_query
build_insert_query-SqlBinds table row = insert_text-SqlBinds table (sort_fields row)

-- An upsert has as many parameters as arguments and leaves no quote open, whatever the table, the
-- columns, the values and the conflict columns are.
pub build_upsert_query-SqlBinds :
    (table : Text) (row : Dict Any) (conflict : List Text) (ignore_duplicates : Bool)
    → SqlBinds (build_upsert_query table row conflict ignore_duplicates)
unfolding build_upsert_query
build_upsert_query-SqlBinds table row conflict ignore_duplicates =
    let sorted = sort_fields row in
    let tail = on_conflict (conflict_columns conflict) (keys_of sorted) ignore_duplicates in
    joined-SqlBinds (insert_text table sorted) (plain tail) (insert_text-SqlBinds table sorted) (
      plain-SqlBinds tail
        (on_conflict-Binds (conflict_columns conflict) (keys_of sorted) ignore_duplicates))
