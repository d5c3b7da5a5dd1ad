-- ===== src/Realtime/Changes/Tests.antt =====
-- Filters on small inputs, and instances of the theorems.
use sblite.Prelude.{codes, ◌≡◌, arith, [], ◌∷◌, none, some, ◌==◌, ltb, any, false, true, str_eq}
use sblite.Realtime.Changes.{Policies}
use sblite.Realtime.Filter.{matches_filter, evaluate_operator, compare_equal}
use sblite.Realtime.Protocol.{Fields, field, text, end, get_field}
use sblite.Realtime.Filter.Parse.{matches_filter-parts, evaluate_operator-listed, tested}
use sblite.Values.{Conversions}

-- Conversions that know no numbers.
abbrev no_numbers : Conversions
no_numbers = record {
  parse_float = λ s. none;
  parse_int = λ s. none;
  atoi = λ s. none;
  float_of_int = λ n. n;
  float_of_int64 = λ n. n;
  float_eq = λ a b. a == b;
  float_lt = λ a b. ltb a b;
  sprint = λ v. [];
  trim_space = λ s. s;
}

abbrev row : Fields
row = field (codes "owner") (text (codes "a=b.c")) end

-- A row before the change, which has another owner, and one without the column.
abbrev old_row : Fields
old_row = field (codes "owner") (text (codes "b")) end

matches_filter-parts_example :
    (matches_filter no_numbers (codes "owner=eq.a=b.c") (some row) (some old_row)
      ≡ tested no_numbers (codes "eq") (codes "a=b.c") (get_field (codes "owner") row))
    × (matches_filter no_numbers (codes "owner=eq.a=b.c") none (some old_row)
        ≡ tested no_numbers (codes "eq") (codes "a=b.c") (get_field (codes "owner") old_row))
    × (matches_filter no_numbers (codes "owner=eq.a=b.c") none none ≡ false)
matches_filter-parts_example =
    matches_filter-parts no_numbers (codes "owner") (codes "eq") (codes "a=b.c") row old_row
      (some old_row) (omega arith, (omega arith, (omega arith, (omega arith, (omega arith, tt)))))
      (omega arith, (omega arith, tt))

evaluate_operator-listed_example :
    evaluate_operator no_numbers (codes "in") (text (codes "b")) (codes "(a,b)")
    ≡ any
        (codes "a" ∷ codes "b" ∷ [])
        (λ t. compare_equal no_numbers (text (codes "b")) (no_numbers.trim_space t))
evaluate_operator-listed_example =
    evaluate_operator-listed no_numbers (text (codes "b")) (codes "a") (codes "b" ∷ [])
      (omega arith, tt) ((omega arith, tt), tt)

-- One policy for every table, and a database whose rows are all ann's.
abbrev ann_owns : Policies
ann_owns = record {
  has_service = true;
  is_rls_enabled = λ table. some true;
  policies_for = λ table.
      some (
        (record { command = codes "ALL"; using_expr = codes "o=auth.uid()"; check_expr = [] })
        ∷ []);
  patterns = record {
    replace_jwt = λ value expr. expr;
    substitute_storage_functions = λ expr. expr;
    sprint = λ v. [];
  };
  has_db = true;
  finds_row = λ condition row. str_eq condition (codes "(o='ann')");
}

abbrev ann_claims : Fields
ann_claims = field (codes "sub") (text (codes "ann")) end
