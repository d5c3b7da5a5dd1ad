-- ===== src/Rest/Builder/Search.antt =====
-- BuildFTSCondition of internal/rest/builder.go. The manager of FTS indexes (internal/fts) is a record
-- of the functions that are called.
use sblite.Prelude.{Text, codes, ◌≡◌, refl, ap, Option, none, some, [], ◌∷◌, ◌++◌, Result, ok, err}
use mathlib.Core.Path.{subst}
use sblite.Values.{text}
use sblite.Rest.Filters.{FtsFilter}
use sblite.Rest.Conditions.Params.{Binds, Binds-append, SqlBinds, after, params, constant}
use sblite.Rest.Builder.{FtsCondition}

-- GetIndex and FindIndexForColumn with the names of the indexes, ToFTS5Query and GetFTSTableName.
pub record FtsManager : Type 0 where
  pub get_index : Text → Text → Result Text
  pub find_index_for_column : Text → Text → Result (Option Text)
  pub to_fts5_query : Text → Text → Text
  pub get_fts_table_name : Text → Text → Text

unfoldable pub or_found : Result (Option Text) → Option Text
or_found (err e) = none
or_found (ok index) = index

unfoldable pub index_of : FtsManager → Text → Text → Option Text
unfolding or_found
index_of manager table column = elim (manager.get_index table column) [
  | ok index ↦ some index
  | err e ↦ or_found (manager.find_index_for_column table column)
]

value_or {ℓ} : {A : Type ℓ} → A → Result A → A
value_or x (ok y) = y
value_or x (err e) = x

module _ (go_quote : Text → Text) where
  unfoldable pub fts_condition : Text → Text → Text → FtsCondition
  fts_condition column fts_table fts_query = record {
    sql =
        codes "rowid IN (SELECT rowid FROM "
        ++ (go_quote fts_table ++ (codes " WHERE " ++ (go_quote fts_table ++ codes " MATCH ?)")));
    args = text fts_query ∷ [];
    column = column;
    fts_table = fts_table;
    fts_query = fts_query;
  }

  -- Behind `ToFTS5Query`.
  unfoldable pub with_query : Text → Text → Text → Result FtsCondition
  unfolding fts_condition
  with_query column fts_table [] = err (codes "empty FTS query")
  with_query column fts_table (c ∷ fts_query) = ok (fts_condition column fts_table (c ∷ fts_query))

  -- Behind the search for an index.
  unfoldable pub with_index : FtsManager → Text → FtsFilter → Option Text → Result FtsCondition
  unfolding with_query
  with_index manager table filter none = err (
      codes "no FTS index found for column "
      ++ (go_quote filter.column ++ (codes " on table " ++ go_quote table)))
  with_index manager table filter (some index) =
      with_query filter.column (manager.get_fts_table_name table index)
        (manager.to_fts5_query filter.operator filter.query)

  unfoldable pub build_fts_condition : Option FtsManager → Text → FtsFilter → Result FtsCondition
  unfolding with_index index_of
  build_fts_condition none table filter = err (codes "FTS not available")
  build_fts_condition (some manager) table filter =
      with_index manager table filter (index_of manager table filter.column)

  fts_condition-SqlBinds :
      (column fts_table fts_query : Text)
      → Binds (go_quote fts_table) 0
      → SqlBinds (
        (fts_condition column fts_table fts_query).sql,
        (fts_condition column fts_table fts_query).args,
      )
  unfolding fts_condition after params
  fts_condition-SqlBinds column fts_table fts_query name =
      let tail = go_quote fts_table ++ codes " MATCH ?)" in
      record {
        binds =
            Binds-append (codes "rowid IN (SELECT rowid FROM ")
              (go_quote fts_table ++ (codes " WHERE " ++ tail))
              (constant (codes "rowid IN (SELECT rowid FROM ") 0 refl refl)
              (Binds-append (go_quote fts_table) (codes " WHERE " ++ tail) name (
                Binds-append (codes " WHERE ") tail (constant (codes " WHERE ") 0 refl refl) (
                  Binds-append (go_quote fts_table) (codes " MATCH ?)") name
                    (constant (codes " MATCH ?)") 1 refl refl))));
      }

  with_query-SqlBinds :
      (column fts_table fts_query : Text) (c : FtsCondition)
      → with_query column fts_table fts_query ≡ ok c
      → Binds (go_quote c.fts_table) 0
      → SqlBinds (c.sql, c.args)
  unfolding with_query
  with_query-SqlBinds column fts_table [] c e name = cc
  with_query-SqlBinds column fts_table (q ∷ fts_query) c e name =
      let same : fts_condition column fts_table (q ∷ fts_query) ≡ c =
        unfold value_or in ap (value_or c) e in
      subst (λ d. Binds (go_quote d.fts_table) 0 → SqlBinds (d.sql, d.args)) same
        (fts_condition-SqlBinds column fts_table (q ∷ fts_query)) name

  with_index-SqlBinds :
      (manager : FtsManager) (table : Text) (filter : FtsFilter) (index : Option Text)
      (c : FtsCondition)
      → with_index manager table filter index ≡ ok c
      → Binds (go_quote c.fts_table) 0
      → SqlBinds (c.sql, c.args)
  unfolding with_index
  with_index-SqlBinds manager table filter none c e name = cc
  with_index-SqlBinds manager table filter (some index) c e name =
      with_query-SqlBinds filter.column (manager.get_fts_table_name table index)
        (manager.to_fts5_query filter.operator filter.query) c e name

  -- A condition that BuildFTSCondition returns has one parameter for its one argument and leaves no
  -- quote open, if %q quotes the name of the FTS table whole.
  pub build_fts_condition-SqlBinds :
      (manager : Option FtsManager) (table : Text) (filter : FtsFilter) (c : FtsCondition)
      → build_fts_condition manager table filter ≡ ok c
      → Binds (go_quote c.fts_table) 0
      → SqlBinds (c.sql, c.args)
  unfolding build_fts_condition
  build_fts_condition-SqlBinds none table filter c e name = cc
  build_fts_condition-SqlBinds (some manager) table filter c e name =
      with_index-SqlBinds manager table filter (index_of manager table filter.column) c e name
