-- ===== src/Rest/Conditions/Bound.antt =====
-- The conditions of internal/rest/query.go and builder.go and the arguments that go with them.
use sblite.Prelude.{
  if_holds, if◌then◌else◌, Text, codes, ◌≢◌, refl, arith, [], ◌∷◌, ◌++◌, List, All, map, length,
  some, none, lookup, Dict, Bool-cases, str_eq, inl, inr, cut, append_assoc, length-append, join,
}
use sblite.Values.{Any, Conversions, text}
use sblite.Rest.Filters.{Filter, valid_operators}
use sblite.Rest.Lists.{LogicalFilter, parse_in_values, convert_wildcards}
use sblite.Rest.Conditions.{
  to_sql, with_value, lower_like, placeholders, in_condition, is_condition, not_is_condition,
  sql_operator, negated, parse_not_filter, operator_sql, quoted_column, parse_in_values,
  convert_wildcards, quote_identifier, convert_value, to_related_sql, logical_conditions,
  logical_to_sql, logical_sql,
}
use sblite.Rest.Conditions.Params.{
  Binds, Binds-append, Binds-eq, Binds-nil, SqlBinds, BindAll, after, no_texts, join-Binds, params,
  and_text, constant, quote_identifier-Binds, literal-Binds,
}

with_value-SqlBinds :
    (column op : Text) (v : Any) → Binds column 0 → Binds op 1 → SqlBinds (with_value column op v)
unfolding with_value
with_value-SqlBinds column op v c o = record {
  binds = Binds-eq (column ++ op) (omega arith) (Binds-append column op c o);
}

lower_like-SqlBinds :
    (column op : Text) (v : Any) → Binds column 0 → Binds op 1 → SqlBinds (lower_like column op v)
unfolding lower_like after params
lower_like-SqlBinds column op v c o = record {
  binds =
      Binds-append (codes "LOWER(") (column ++ (codes ")" ++ op))
        (constant (codes "LOWER(") 0 refl refl)
        (Binds-append column (codes ")" ++ op) c
          (Binds-append (codes ")") op (constant (codes ")") 0 refl refl) o));
}

marks : (args : List Any) → BindAll (map (λ _. codes "?") args) (length args)
unfolding after params
marks [] = no_texts
marks (v ∷ args) = and_text (constant (codes "?") 1 refl refl) (marks args) (omega arith)

pub placeholders-Binds : (args : List Any) → Binds (placeholders args) (length args)
unfolding placeholders after params
placeholders-Binds args =
    join-Binds (codes ", ") (map (λ _. codes "?") args) (length args)
      (constant (codes ", ") 0 refl refl) (marks args)

in_condition-SqlBinds :
    (column op empty : Text) (args : List Any)
    → Binds column 0
    → Binds op 0
    → Binds empty 0
    → SqlBinds (in_condition column op empty args)
unfolding in_condition after params
in_condition-SqlBinds column op empty [] c o e = record { binds = e }
in_condition-SqlBinds column op empty (v ∷ args) c o e =
    let marks_of = placeholders (v ∷ args) in
    record {
      binds = Binds-eq (column ++ (op ++ (marks_of ++ codes ")"))) (omega arith) (
          Binds-append column (op ++ (marks_of ++ codes ")")) c (
            Binds-append op (marks_of ++ codes ")") o (
              Binds-append marks_of (codes ")") (placeholders-Binds (v ∷ args))
                (constant (codes ")") 0 refl refl))));
    }

fixed-SqlBinds :
    (column tail : Text) → Binds column 0 → Binds tail 0 → SqlBinds (column ++ tail, [])
fixed-SqlBinds column tail c t = record { binds = Binds-append column tail c t }

module _ (column value : Text) (c : Binds column 0) where
  is_condition-SqlBinds : SqlBinds (is_condition column value)
  unfolding is_condition after params
  is_condition-SqlBinds =
      if_holds SqlBinds _ _ _
        (fixed-SqlBinds column (codes " IS NULL") c (constant (codes " IS NULL") 0 refl refl))
        (if_holds SqlBinds _ _ _
          (fixed-SqlBinds column (codes " IS NOT NULL") c
            (constant (codes " IS NOT NULL") 0 refl refl))
          (if_holds SqlBinds _ _ _
            (fixed-SqlBinds column (codes " = 1") c (constant (codes " = 1") 0 refl refl))
            (if_holds SqlBinds _ _ _
              (fixed-SqlBinds column (codes " = 0") c (constant (codes " = 0") 0 refl refl))
              (with_value-SqlBinds column (codes " IS ?") (text value) c
                (constant (codes " IS ?") 1 refl refl)))))

  not_is_condition-SqlBinds : SqlBinds (not_is_condition column value)
  unfolding not_is_condition after params
  not_is_condition-SqlBinds =
      if_holds SqlBinds _ _ _
        (fixed-SqlBinds column (codes " IS NOT NULL") c
          (constant (codes " IS NOT NULL") 0 refl refl))
        (if_holds SqlBinds _ _ _
          (fixed-SqlBinds column (codes " IS NULL") c (constant (codes " IS NULL") 0 refl refl))
          (with_value-SqlBinds column (codes " IS NOT ?") (text value) c
            (constant (codes " IS NOT ?") 1 refl refl)))

-- The texts of a table have no parameter.
lookup-Binds :
    (k : Text) (m : Dict Text)
    → All (λ e. Binds e.1 0) m
    → Binds (elim (lookup k m) [ none ↦ [] | some sql ↦ sql ]) 0
unfolding lookup
lookup-Binds k [] _ = Binds-nil
lookup-Binds k ((j, sql) ∷ m) (h, hs) = elim (Bool-cases (str_eq j k)) [
  | inl same ↦ rw same h
  | inr other ↦ rw other (lookup-Binds k m hs)
]

operators-Binds : All (λ e. Binds e.1 0) valid_operators
unfolding valid_operators after params
operators-Binds = (
  constant (codes "=") 0 refl refl,
  (
    constant (codes "!=") 0 refl refl,
    (
      constant (codes ">") 0 refl refl,
      (
        constant (codes ">=") 0 refl refl,
        (
          constant (codes "<") 0 refl refl,
          (
            constant (codes "<=") 0 refl refl,
            (
              constant (codes "IS") 0 refl refl,
              (
                constant (codes "IN") 0 refl refl,
                (
                  constant (codes "LIKE") 0 refl refl,
                  (constant (codes "ILIKE") 0 refl refl, (constant (codes "NOT") 0 refl refl, tt)),
                ),
              ),
            ),
          ),
        ),
      ),
    ),
  ),
)

pub path_literal-Binds :
    (path : Text) → All (λ c. c ≢ b'\'') path → Binds (codes ", '" ++ (path ++ codes "')")) 0
unfolding after params
path_literal-Binds path plain =
    let literal = b'\'' ∷ (path ++ b'\'' ∷ []) in
    let ended =
      Binds-append literal (codes ")") (literal-Binds path plain)
        (constant (codes ")") 0 refl refl) in
    Binds-append (codes ", ") (b'\'' ∷ (path ++ codes "')")) (constant (codes ", ") 0 refl refl)
      (rw append_assoc at ended)

-- The path of a JSON filter ends no literal.
abbrev pub IsPlainPath : Filter → Type 0
IsPlainPath f = All (λ c. c ≢ b'\'') f.json_path

module _ (conv : Conversions) where
  negated-SqlBinds :
      (column op value : Text) → Binds column 0 → SqlBinds (negated conv column op value)
  unfolding negated after params
  negated-SqlBinds column op value c =
      let bound : (sql : Text) → Binds sql 1 → SqlBinds (with_value column sql (text value)) =
        λ sql b. with_value-SqlBinds column sql (text value) c b in
      if_holds SqlBinds _ _ _ (bound (codes " != ?") (constant (codes " != ?") 1 refl refl)) (
        if_holds SqlBinds _ _ _ (bound (codes " = ?") (constant (codes " = ?") 1 refl refl)) (
          if_holds SqlBinds _ _ _ (bound (codes " <= ?") (constant (codes " <= ?") 1 refl refl)) (
            if_holds SqlBinds _ _ _ (bound (codes " < ?") (constant (codes " < ?") 1 refl refl)) (
              if_holds SqlBinds _ _ _ (bound (codes " >= ?") (constant (codes " >= ?") 1 refl refl))
                (if_holds SqlBinds _ _ _
                  (bound (codes " > ?") (constant (codes " > ?") 1 refl refl))
                  (if_holds SqlBinds _ _ _ (not_is_condition-SqlBinds column value c) (
                    if_holds SqlBinds _ _ _
                      (in_condition-SqlBinds column (codes " NOT IN (") (codes "1 = 1")
                        (map text (parse_in_values conv value)) c
                        (constant (codes " NOT IN (") 0 refl refl)
                        (constant (codes "1 = 1") 0 refl refl))
                      (if_holds SqlBinds _ _ _
                        (with_value-SqlBinds column (codes " NOT LIKE ?")
                          (text (convert_wildcards value)) c
                          (constant (codes " NOT LIKE ?") 1 refl refl))
                        (if_holds SqlBinds _ _ _
                          (lower_like-SqlBinds column (codes " NOT LIKE LOWER(?)")
                            (text (convert_wildcards value)) c
                            (constant (codes " NOT LIKE LOWER(?)") 1 refl refl))
                          (record {
                            binds =
                                Binds-append (codes "NOT (") (column ++ codes " = ?)")
                                  (constant (codes "NOT (") 0 refl refl)
                                  (Binds-append column (codes " = ?)") c
                                    (constant (codes " = ?)") 1 refl refl));
                          }))))))))))

  parse_not_filter-SqlBinds :
      (column value : Text) → Binds column 0 → SqlBinds (parse_not_filter conv column value)
  unfolding parse_not_filter after params
  parse_not_filter-SqlBinds column value c =
      elim (cut b'.' value)
        as (λ r. SqlBinds (elim r [
          | none ↦ with_value column (codes " != ?") (text value)
          | some (inner_op, inner_val) ↦ negated conv column inner_op inner_val
        ])) [
          | none ↦
              with_value-SqlBinds column (codes " != ?") (text value) c
                (constant (codes " != ?") 1 refl refl)
          | some (op, inner) ↦ negated-SqlBinds column op inner c
        ]

  operator_sql-SqlBinds :
      (convert : Text → Any) (column op value : Text)
      → Binds column 0
      → SqlBinds (operator_sql conv convert column op value)
  unfolding operator_sql after params sql_operator
  operator_sql-SqlBinds convert column op value c =
      if_holds SqlBinds _ _ _ (is_condition-SqlBinds column value c) (
        if_holds SqlBinds _ _ _
          (in_condition-SqlBinds column (codes " IN (") (codes "1 = 0")
            (map convert (parse_in_values conv value)) c (constant (codes " IN (") 0 refl refl)
            (constant (codes "1 = 0") 0 refl refl))
          (if_holds SqlBinds _ _ _
            (with_value-SqlBinds column (codes " LIKE ?") (text (convert_wildcards value)) c
              (constant (codes " LIKE ?") 1 refl refl))
            (if_holds SqlBinds _ _ _
              (lower_like-SqlBinds column (codes " LIKE LOWER(?)") (text (convert_wildcards value))
                c (constant (codes " LIKE LOWER(?)") 1 refl refl))
              (if_holds SqlBinds _ _ _ (parse_not_filter-SqlBinds column value c) (
                with_value-SqlBinds column (codes " " ++ (sql_operator conv op ++ codes " ?"))
                  (convert value) c
                  (Binds-append (codes " ") (sql_operator conv op ++ codes " ?")
                    (constant (codes " ") 0 refl refl)
                    (Binds-append (sql_operator conv op) (codes " ?")
                      (lookup-Binds op valid_operators operators-Binds)
                      (constant (codes " ?") 1 refl refl))))))))

  quoted_column-Binds : (f : Filter) → IsPlainPath f → Binds (quoted_column conv f) 0
  unfolding quoted_column after params
  quoted_column-Binds f plain =
      if_holds (λ s. Binds s 0) _ _ _ (quote_identifier-Binds f.column)
        (Binds-append (codes "json_extract(")
          (quote_identifier f.column ++ (codes ", '" ++ (f.json_path ++ codes "')")))
          (constant (codes "json_extract(") 0 refl refl)
          (Binds-append (quote_identifier f.column) (codes ", '" ++ (f.json_path ++ codes "')"))
            (quote_identifier-Binds f.column) (path_literal-Binds f.json_path plain)))

  -- The condition of a filter has as many parameters as arguments, and leaves no quote open: whatever
  -- its operator, its value and its column are, the value is no part of the text. A JSON path, which
  -- does become part of the text, has no single quote.
  pub to_sql-SqlBinds : (f : Filter) → IsPlainPath f → SqlBinds (to_sql conv f)
  unfolding to_sql
  to_sql-SqlBinds f plain =
      if_holds SqlBinds _ _ _
        (operator_sql-SqlBinds (convert_value conv f) (quoted_column conv f) f.operator f.value
          (quoted_column-Binds f plain))
        (record { binds = Binds-nil })

  -- The condition on the column of a related table has as many parameters as arguments, and leaves no
  -- quote open, for every filter.
  pub to_related_sql-SqlBinds : (f : Filter) → SqlBinds (to_related_sql conv f)
  unfolding to_related_sql
  to_related_sql-SqlBinds f =
      if_holds SqlBinds _ _ _ (record { binds = Binds-nil })
        (operator_sql-SqlBinds text (quote_identifier f.related_column) f.operator f.value
          (quote_identifier-Binds f.related_column))

  logical_conditions-BindAll :
      (fs : List Filter)
      → All IsPlainPath fs
      → BindAll (logical_conditions conv fs).0 (length (logical_conditions conv fs).1)
  unfolding logical_conditions
  logical_conditions-BindAll [] _ = no_texts
  logical_conditions-BindAll (f ∷ fs) (h, hs) =
      and_text (to_sql-SqlBinds f h).binds (logical_conditions-BindAll fs hs) (length-append _ _)

  logical_sql-SqlBinds :
      (operator : Text) (fs : List Filter)
      → All IsPlainPath fs
      → SqlBinds (logical_sql conv operator fs)
  unfolding logical_sql after params
  logical_sql-SqlBinds operator [] _ = record { binds = Binds-nil }
  logical_sql-SqlBinds operator (f ∷ fs) plain =
      let (conditions, args) = logical_conditions conv (f ∷ fs) in
      let joiner = if str_eq operator (codes "or") then codes " OR " else codes " AND " in
      let joiner_binds : Binds joiner 0 =
        if_holds (λ j. Binds j 0) (str_eq operator (codes "or")) (codes " OR ") (codes " AND ")
          (constant (codes " OR ") 0 refl refl) (constant (codes " AND ") 0 refl refl) in
      record {
        binds = Binds-eq (codes "(" ++ (join joiner conditions ++ codes ")")) (omega arith) (
            Binds-append (codes "(") (join joiner conditions ++ codes ")")
              (constant (codes "(") 0 refl refl)
              (Binds-append (join joiner conditions) (codes ")")
                (join-Binds joiner conditions (length args) joiner_binds
                  (logical_conditions-BindAll (f ∷ fs) plain))
                (constant (codes ")") 0 refl refl)));
      }

  pub logical_to_sql-SqlBinds :
      (lf : LogicalFilter) → All IsPlainPath lf.filters → SqlBinds (logical_to_sql conv lf)
  unfolding logical_to_sql
  logical_to_sql-SqlBinds lf plain = logical_sql-SqlBinds lf.operator lf.filters plain
