-- ===== src/Realtime/Filter/Parse.antt =====
-- How the texts of filters are taken apart (internal/realtime/filter.go).
use sblite.Prelude.{
  ℕ, Text, ◌≡◌, ◌≢◌, refl, arith, All, [], ◌∷◌, ◌++◌, some, List, Option, str_eq, codes, any, cut,
  split, trim_suffix, before_first, trim_prefix, Bool, none, false, Option-cases, inl, inr,
}
use sblite.Realtime.Filter.{
  any_equal, evaluate_operator, matches_filter, Any, compare_in, matches_row, Fields, get_field,
  compare_equal, Conversions,
}
use sblite.Realtime.Protocol.{Any, Fields, get_field}
use sblite.Values.{Conversions}

pub cut-append : (c : ℕ) (s t : Text) → All (λ b. b ≢ c) s → cut c (s ++ (c ∷ t)) ≡ some (s, t)
unfolding cut
cut-append c [] t _ = ground arith
cut-append c (b ∷ s) t (h, hs) = ground (arith, cut-append c s t hs)

-- Splitting and joining are inverse on parts without the separator.
split_cons_same : (c : ℕ) (t : Text) → split c (c ∷ t) ≡ [] ∷ split c t
unfolding split
split_cons_same c t = ground arith

split_cons_other : (c b : ℕ) (t : Text) → b ≢ c → split c (b ∷ t) ≡ before_first b (split c t)
unfolding split
split_cons_other c b t h = ground arith

split_alone : (c : ℕ) (s : Text) → All (λ b. b ≢ c) s → split c s ≡ s ∷ []
split_alone c [] _ = unfold split in refl
split_alone c (b ∷ s) (h, hs) =
    rw (split_cons_other c b s h, split_alone c s hs) (unfold before_first in refl)

split-append : (c : ℕ) (s t : Text) → All (λ b. b ≢ c) s → split c (s ++ (c ∷ t)) ≡ s ∷ split c t
split-append c [] t _ = split_cons_same c t
split-append c (b ∷ s) t (h, hs) =
    rw (split_cons_other c b (s ++ (c ∷ t)) h, split-append c s t hs) (unfold before_first in refl)

-- The values of a list with commas between them, the first one apart.
abbrev pub commas : Text → List Text → Text
commas s [] = s
commas s (t ∷ ts) = s ++ (b',' ∷ commas t ts)

split-commas :
    (s : Text) (ts : List Text)
    → All (λ b. b ≢ b',') s
    → All (All (λ b. b ≢ b',')) ts
    → split b',' (commas s ts) ≡ s ∷ ts
split-commas s [] h _ = split_alone b',' s h
split-commas s (t ∷ ts) h (ht, hts) =
    rw (split-append b',' s (commas t ts) h, split-commas t ts ht hts) refl

trim_suffix-append : (c : ℕ) (s : Text) → trim_suffix c (s ++ c ∷ []) ≡ s
unfolding trim_suffix
trim_suffix-append c [] = ground arith
trim_suffix-append c (b ∷ []) = rw (trim_suffix-append c []) refl
trim_suffix-append c (b ∷ d ∷ s) = rw (trim_suffix-append c (d ∷ s)) refl

-- A list in parentheses.
abbrev pub listed : Text → List Text → Text
listed s ts = b'(' ∷ (commas s ts ++ b')' ∷ [])

module _ (conv : Conversions) where
  any_equal-any :
      (v : Any) (ss : List Text)
      → any_equal conv v ss ≡ any ss (λ s. compare_equal conv v (conv.trim_space s))
  unfolding any_equal
  any_equal-any v [] = refl
  any_equal-any v (s ∷ ss) = ground (arith, any_equal-any v ss)

  -- `in` with values that have no comma, put in parentheses with commas between them, holds for a row's
  -- value if that equals one of the values without the spaces around it, and only then.
  pub evaluate_operator-listed :
      (v : Any) (s : Text) (ts : List Text)
      → All (λ b. b ≢ b',') s
      → All (All (λ b. b ≢ b',')) ts
      → evaluate_operator conv (codes "in") v (listed s ts)
        ≡ any (s ∷ ts) (λ t. compare_equal conv v (conv.trim_space t))
  unfolding evaluate_operator compare_in trim_prefix str_eq
  evaluate_operator-listed v s ts h hs =
      rw (trim_suffix-append b')' (commas s ts), split-commas s ts h hs) (any_equal-any v (s ∷ ts))

  -- What a row's value says of the condition; `none`: the row does not have the column.
  abbrev pub tested : Text → Text → Option Any → Bool
  tested operator value none = false
  tested operator value (some v) = evaluate_operator conv operator v value

  -- A filter with a column without `=`, an operator without a dot and any value behind them is
  -- evaluated on that column's value in the new row where there is a new row, whatever the old one is,
  -- and in the old row where there is only that. It does not hold if the row does not have the column,
  -- or if there is no row.
  pub matches_filter-parts :
      (column operator value : Text) (new old : Fields) (old_row : Option Fields)
      → All (λ b. b ≢ b'=') column
      → All (λ b. b ≢ b'.') operator
      → let filter = column ++ (b'=' ∷ (operator ++ (b'.' ∷ value))) in
        (matches_filter conv filter (some new) old_row
          ≡ tested operator value (get_field column new))
        × (matches_filter conv filter none (some old)
            ≡ tested operator value (get_field column old))
        × (matches_filter conv filter none none ≡ false)
  unfolding matches_filter matches_row
  matches_filter-parts column operator value new old old_row h k =
      let first = cut-append b'=' column (operator ++ (b'.' ∷ value)) h in
      let second = cut-append b'.' operator value k in
      (
        rw (matches_filter, first, second)
            (elim (Option-cases (get_field column new)) [
              | inl absent ↦ rw (matches_row, absent) refl
              | inr (v, found) ↦ rw (matches_row, found) refl
            ]),
        rw (matches_filter, first, second)
            (elim (Option-cases (get_field column old)) [
              | inl absent ↦ rw (matches_row, absent) refl
              | inr (v, found) ↦ rw (matches_row, found) refl
            ]),
        rw (matches_filter, first, second) refl,
      )
