-- ===== src/Rest/Builder/Bound/Clauses.antt =====
-- The clauses that the statements of internal/rest/builder.go have in common.
use sblite.Prelude.{
  if_holds, ℕ, Text, codes, ◌≡◌, ◌≤◌, refl, arith, [], ◌∷◌, ◌++◌, List, All, All-append, map, Bool,
  true, false, Option, zero, suc, ◌||◌, Bool-cases, ltb, inl, inr, ◌+◌, ◌/◌, ◌%◌,
}
use sblite.Rest.Lists.{OrderBy}
use sblite.Rest.Conditions.{quote_identifier}
use sblite.Rest.Conditions.Params.{
  Binds, Binds-append, Binds-eq, Binds-nil, SqlBinds, after, params, constant,
  quote_identifier-Binds, outside,
}
use sblite.Rest.Builder.{
  FtsCondition, plain, join_sql, is_empty_text, rls_text, fts_text, order_text, limit_text, also,
  direction, order_piece, is_rank_condition, is_rank_column,
}
use sblite.Numbers.{ℤ, pos, negsuc, digits, print_int}
use sblite.Rest.Builder.Bound.{joined-SqlBinds, plain-SqlBinds, join_sql-SqlBinds}

-- A number and its sign have none of the bytes that count.
abbrev IsOrdinary : Text → Type 0
IsOrdinary s = All (λ c. (45 ≤ c) × (c ≤ 57)) s

after_ordinary : (s : Text) → IsOrdinary s → after outside s ≡ outside
unfolding after
after_ordinary [] _ = refl
after_ordinary (c ∷ s) (h, hs) = ground (arith, after_ordinary s hs)

params_ordinary : (s : Text) → IsOrdinary s → params outside s ≡ 0
unfolding params
params_ordinary [] _ = refl
params_ordinary (c ∷ s) (h, hs) = ground (arith, params_ordinary s hs)

digits-IsOrdinary : (fuel n : ℕ) → IsOrdinary (digits fuel n)
unfolding digits
digits-IsOrdinary zero n = (omega arith, tt)
digits-IsOrdinary (suc fuel) n = elim (Bool-cases (ltb n 10)) [
  | inl below ↦ rw below (ground arith, tt)
  | inr above ↦ rw above (
      All-append (λ c. (45 ≤ c) × (c ≤ 57)) (digits fuel (n / 10)) ((48 + n % 10) ∷ [])
        (digits-IsOrdinary fuel (n / 10)) (omega arith, tt))
]

print_int-Binds : (i : ℤ) → Binds (print_int i) 0
unfolding print_int
print_int-Binds (pos n) = record {
  closed = after_ordinary _ (digits-IsOrdinary n n);
  counted = params_ordinary _ (digits-IsOrdinary n n);
}
print_int-Binds (negsuc n) =
    let ordinary : IsOrdinary (b'-' ∷ digits (suc n) (suc n)) =
      (omega arith, digits-IsOrdinary (suc n) (suc n)) in
    record { closed = after_ordinary _ ordinary; counted = params_ordinary _ ordinary }

pub limit_text-SqlBinds : (limit offset : ℤ) → SqlBinds (limit_text limit offset)
unfolding limit_text after params
limit_text-SqlBinds (pos zero) offset = plain-SqlBinds [] Binds-nil
limit_text-SqlBinds (negsuc n) offset = plain-SqlBinds [] Binds-nil
limit_text-SqlBinds (pos (suc n)) offset = plain-SqlBinds _ (
    Binds-append (codes " LIMIT ")
      (print_int (pos (suc n)) ++ (codes " OFFSET " ++ print_int offset))
      (constant (codes " LIMIT ") 0 refl refl)
      (Binds-append (print_int (pos (suc n))) (codes " OFFSET " ++ print_int offset)
        (print_int-Binds (pos (suc n)))
        (Binds-append (codes " OFFSET ") (print_int offset)
          (constant (codes " OFFSET ") 0 refl refl) (print_int-Binds offset))))

also-Binds : (has_conditions : Bool) → Binds (also has_conditions) 0
unfolding also after params
also-Binds true = constant (codes " AND ") 0 refl refl
also-Binds false = constant (codes " WHERE ") 0 refl refl

pub rls_text-SqlBinds :
    (has_conditions : Bool) (condition : Text)
    → Binds condition 0
    → SqlBinds (rls_text has_conditions condition)
unfolding rls_text
rls_text-SqlBinds has_conditions condition h =
    if_holds SqlBinds (is_empty_text condition) _ _ (plain-SqlBinds [] Binds-nil) (
      plain-SqlBinds _ (Binds-append (also has_conditions) condition (also-Binds has_conditions) h))

abbrev pub FtsBinds : FtsCondition → Type 0
FtsBinds c = SqlBinds (c.sql, c.args)

pub fts_text-SqlBinds :
    (has_conditions : Bool) (rank : Option (FtsCondition × OrderBy)) (cs : List FtsCondition)
    → All FtsBinds cs
    → SqlBinds (fts_text has_conditions rank cs)
unfolding fts_text
fts_text-SqlBinds has_conditions rank [] _ = plain-SqlBinds [] Binds-nil
fts_text-SqlBinds has_conditions rank (c ∷ cs) (h, hs) =
    if_holds SqlBinds (is_empty_text c.sql || is_rank_condition rank c.column) _ _
      (fts_text-SqlBinds has_conditions rank cs hs)
      (joined-SqlBinds (also has_conditions ++ c.sql, c.args) (fts_text true rank cs)
        (record {
          binds =
              Binds-eq (also has_conditions ++ c.sql) (omega arith)
                (Binds-append (also has_conditions) c.sql (also-Binds has_conditions) h.binds);
        })
        (fts_text-SqlBinds true rank cs hs))

direction-Binds : (desc : Bool) → Binds (direction desc) 0
unfolding direction after params
direction-Binds true = constant (codes " DESC") 0 refl refl
direction-Binds false = constant (codes " ASC") 0 refl refl

order_piece-SqlBinds :
    (rank : Option (FtsCondition × OrderBy)) (o : OrderBy) → SqlBinds (order_piece rank o)
unfolding order_piece after params
order_piece-SqlBinds rank o =
    if_holds SqlBinds (is_rank_column rank o.column) _ _
      (plain-SqlBinds _ (
        Binds-append (codes "_fts_rank.rank") (direction o.desc)
          (constant (codes "_fts_rank.rank") 0 refl refl) (direction-Binds o.desc)))
      (plain-SqlBinds _ (
        Binds-append (quote_identifier o.column) (direction o.desc)
          (quote_identifier-Binds o.column) (direction-Binds o.desc)))

order_pieces-SqlBinds :
    (rank : Option (FtsCondition × OrderBy)) (os : List OrderBy)
    → All SqlBinds (map (order_piece rank) os)
order_pieces-SqlBinds rank [] = tt
order_pieces-SqlBinds rank (o ∷ os) = (order_piece-SqlBinds rank o, order_pieces-SqlBinds rank os)

pub order_text-SqlBinds :
    (rank : Option (FtsCondition × OrderBy)) (os : List OrderBy) → SqlBinds (order_text rank os)
unfolding order_text after params
order_text-SqlBinds rank [] = plain-SqlBinds [] Binds-nil
order_text-SqlBinds rank (o ∷ os) =
    let pieces = map (order_piece rank) (o ∷ os) in
    joined-SqlBinds (plain (codes " ORDER BY ")) (join_sql (codes ", ") pieces)
      (plain-SqlBinds _ (constant (codes " ORDER BY ") 0 refl refl))
      (join_sql-SqlBinds (codes ", ") pieces (constant (codes ", ") 0 refl refl)
        (order_pieces-SqlBinds rank (o ∷ os)))
