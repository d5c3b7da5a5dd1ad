-- ===== src/Rest/Relations/Bound.antt =====
-- The conditions and joins of BuildSelectQueryWithRelations and their arguments
-- (internal/rest/builder.go).
use sblite.Prelude.{ℕ, Text, codes, refl, arith, ◌++◌, if_holds, length}
use sblite.Values.{Conversions}
use sblite.Rest.Filters.{Filter}
use sblite.Rest.Conditions.{to_related_sql, quote_identifier}
use sblite.Rest.Conditions.Params.{
  Binds, Binds-append, Binds-nil, SqlBinds, after, params, constant, quote_identifier-Binds,
  Binds-eq,
}
use sblite.Rest.Conditions.Bound.{to_related_sql-SqlBinds}
use sblite.Rest.Builder.{is_empty_text}
use sblite.Rest.Relations.{Relationship}
use sblite.Rest.Relations.Statement.{exists_text, build_related_filter_exists}

-- A text that starts with a fixed one, and one that starts with a quoted name.
fixed-Binds : (s t : Text) (n : ℕ) → Binds s 0 → Binds t n → Binds (s ++ t) n
fixed-Binds s t n x y = Binds-eq (s ++ t) (omega arith) (Binds-append s t x y)

named-Binds : (name t : Text) (n : ℕ) → Binds t n → Binds (quote_identifier name ++ t) n
named-Binds name t n y = fixed-Binds (quote_identifier name) t n (quote_identifier-Binds name) y

exists_text-Binds :
    (main_table : Text) (rel : Relationship) (sql : Text) (n : ℕ)
    → Binds sql n
    → Binds (exists_text main_table rel sql) n
unfolding exists_text after params
exists_text-Binds main_table rel sql n h =
    fixed-Binds (codes "EXISTS (SELECT 1 FROM ") _ n
      (constant (codes "EXISTS (SELECT 1 FROM ") 0 refl refl)
      (named-Binds rel.foreign_table _ n (
        fixed-Binds (codes " WHERE ") _ n (constant (codes " WHERE ") 0 refl refl) (
          named-Binds rel.foreign_table _ n (
            fixed-Binds (codes ".") _ n (constant (codes ".") 0 refl refl) (
              named-Binds rel.foreign_column _ n (
                fixed-Binds (codes " = ") _ n (constant (codes " = ") 0 refl refl) (
                  named-Binds main_table _ n (
                    fixed-Binds (codes ".") _ n (constant (codes ".") 0 refl refl) (
                      named-Binds rel.local_column _ n (
                        fixed-Binds (codes " AND ") _ n (constant (codes " AND ") 0 refl refl) (
                          Binds-eq (sql ++ codes ")") (omega arith) (
                            Binds-append sql (codes ")") h
                              (constant (codes ")") 0 refl refl)))))))))))))

-- The EXISTS condition of a filter on a related table has as many parameters as arguments and leaves no
-- quote open, for every filter, every relationship and every name of a table.
pub build_related_filter_exists-SqlBinds :
    (conv : Conversions) (main_table : Text) (f : Filter) (rel : Relationship)
    → SqlBinds (build_related_filter_exists conv main_table f rel)
unfolding build_related_filter_exists
build_related_filter_exists-SqlBinds conv main_table f rel =
    let (sql, args) = to_related_sql conv f in
    if_holds SqlBinds (is_empty_text sql) _ _ (record { binds = Binds-nil })
      (record {
        binds =
            exists_text-Binds main_table rel sql (length args)
              (to_related_sql-SqlBinds conv f).binds;
      })
