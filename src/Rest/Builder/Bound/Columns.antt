-- ===== src/Rest/Builder/Bound/Columns.antt =====
-- The column list of SELECT (buildSelectColumn of internal/rest/builder.go): which bytes its JSON paths
-- have.
use sblite.Prelude.{
  if_holds, ℕ, Text, codes, ◌≢◌, refl, arith, [], ◌∷◌, ◌++◌, List, All, All-append, join, some,
  none, Bool, true, false, Option, zero, suc, drop, cut, cut_text, ◌==◌, has_prefix, length,
}
use sblite.Rest.Filters.{path_parts, json_path_of}
use sblite.Rest.Conditions.{quote_identifier}
use sblite.Rest.Conditions.Params.{
  Binds, Binds-append, after, params, constant, quote_identifier-Binds,
}
use sblite.Rest.Builder.Columns.{
  build_select_column, json_keys, alias_of, named_column, json_column, alias_or, last_key, alias_in,
  unless_arrow,
}
use sblite.Rest.Conditions.Bound.{path_literal-Binds}

-- What holds of a computed option, if there is one.
abbrev pub OnSome {ℓ κ} : {A : Type ℓ} → (A → Type κ) → Option A → Type κ
OnSome P none = Unit
OnSome P (some x) = P x

module _ (P : ℕ → Type 0) where
  abbrev Both : Text × Text → Type 0
  Both parts = All P parts.0 × All P parts.1

  behind-Both :
      (b : ℕ) (r : Option (Text × Text))
      → P b
      → OnSome Both r
      → OnSome Both (elim r [ none ↦ none | some parts ↦ some (b ∷ parts.0, parts.1) ])
  behind-Both b none h _ = tt
  behind-Both b (some parts) h (hx, hy) = ((h, hx), hy)

  cut-All : (c : ℕ) (s : Text) → All P s → OnSome Both (cut c s)
  unfolding cut
  cut-All c [] _ = tt
  cut-All c (b ∷ s) (h, hs) =
      if_holds (OnSome Both) (b == c) _ _ (tt, hs) (behind-Both b (cut c s) h (cut-All c s hs))

  cut_text-All : (pattern s : Text) → All P s → OnSome Both (cut_text pattern s)
  unfolding cut_text
  cut_text-All pattern [] _ = tt
  cut_text-All pattern (b ∷ s) (h, hs) =
      if_holds (OnSome Both) (has_prefix (b ∷ s) pattern) _ _ (tt, (h, hs))
        (behind-Both b (cut_text pattern s) h (cut_text-All pattern s hs))

  drop-All : (n : ℕ) (s : Text) → All P s → All P (drop n s)
  unfolding drop
  drop-All zero s h = h
  drop-All (suc n) [] h = h
  drop-All (suc n) (b ∷ s) (_, h) = drop-All n s h

  join-All :
      (separator : Text) (parts : List Text)
      → All P separator
      → All (All P) parts
      → All P (join separator parts)
  unfolding join
  join-All separator [] q _ = tt
  join-All separator (s ∷ []) q (h, _) = h
  join-All separator (s ∷ t ∷ parts) q (h, hs) =
      All-append P s _ h (All-append P separator _ q (join-All separator (t ∷ parts) q hs))

  abbrev Keys : List Text × Bool → Type 0
  Keys r = All (All P) r.0

  with_key-Keys :
      (key : Text) (r : Option (List Text × Bool))
      → All P key
      → OnSome Keys r
      → OnSome Keys (elim r [ none ↦ none | some (keys, t) ↦ some (key ∷ keys, t) ])
  with_key-Keys key none h _ = tt
  with_key-Keys key (some (keys, t)) h hs = (h, hs)

  path_parts-All :
      (fuel : ℕ) (is_text : Bool) (s : Text) → All P s → OnSome Keys (path_parts fuel is_text s)
  unfolding path_parts
  path_parts-All zero is_text s _ = tt
  path_parts-All (suc fuel) is_text [] _ = tt
  path_parts-All (suc fuel) is_text (b ∷ s) h =
      if_holds (OnSome Keys) (has_prefix (b ∷ s) (codes "->>")) _ _
        (path_parts-All fuel true (drop 3 (b ∷ s)) (drop-All 3 (b ∷ s) h))
        (if_holds (OnSome Keys) (has_prefix (b ∷ s) (codes "->")) _ _
          (path_parts-All fuel is_text (drop 2 (b ∷ s)) (drop-All 2 (b ∷ s) h))
          ((elim (cut_text (codes "->") (b ∷ s))
              as (λ r.
                OnSome Both r
                → OnSome Keys (elim r [
                  | none ↦ some ((b ∷ s) ∷ [], is_text)
                  | some (key, rest) ↦ (elim (path_parts fuel is_text rest) [
                    | none ↦ none
                    | some (keys, t) ↦ some (key ∷ keys, t)
                  ])
                ])) [
                  | none ↦ λ _. (h, tt)
                  | some (key, rest) ↦ λ both.
                      with_key-Keys key (path_parts fuel is_text rest) both.0
                        (path_parts-All fuel is_text rest both.1)
                ])
            (cut_text-All (codes "->") (b ∷ s) h)))

  abbrev Found : Text × Text × List Text → Type 0
  Found (base, key, keys) = All (All P) (key ∷ keys)

  first_key_kept :
      (base : Text) (r : Option (List Text × Bool))
      → OnSome Keys r
      → OnSome Found (elim r [
        | none ↦ none
        | some ([], _) ↦ none
        | some (key ∷ keys, _) ↦ some (base, key, keys)
      ])
  first_key_kept base none _ = tt
  first_key_kept base (some ([], t)) _ = tt
  first_key_kept base (some (key ∷ keys, t)) h = h

  json_keys-All : (s : Text) → All P s → OnSome Found (json_keys s)
  unfolding json_keys
  json_keys-All s h =
      (elim (cut_text (codes "->") s)
          as (λ r.
            OnSome Both r
            → OnSome Found (elim r [
              | none ↦ none
              | some (base, arrows) ↦ (elim (path_parts (suc (length arrows)) false arrows) [
                | none ↦ none
                | some ([], _) ↦ none
                | some (key ∷ keys, _) ↦ some (base, key, keys)
              ])
            ])) [
              | none ↦ λ _. tt
              | some (base, arrows) ↦ λ both.
                  first_key_kept base (path_parts (suc (length arrows)) false arrows)
                    (path_parts-All (suc (length arrows)) false arrows both.1)
            ])
        (cut_text-All (codes "->") s h)

  alias_of-All : (col : Text) → All P col → All P (alias_of col).1
  unfolding alias_of alias_in unless_arrow
  alias_of-All col h =
      (elim (cut b':' col) as (λ r. OnSome Both r → All P (alias_in col r).1) [
        | none ↦ λ _. h
        | some (alias, remaining) ↦ λ both.
            elim (cut_text (codes "->") alias)
              as (λ r. All P (unless_arrow col alias remaining r).1) [ none ↦ both.1 | some _ ↦ h ]
      ])
        (cut-All b':' col h)

abbrev pub NoQuote : Text → Type 0
NoQuote s = All (λ c. c ≢ b'\'') s

named_column-Binds : (col alias remaining : Text) → Binds (named_column col alias remaining) 0
unfolding named_column after params
named_column-Binds col [] remaining = quote_identifier-Binds col
named_column-Binds col (c ∷ alias) remaining =
    Binds-append (quote_identifier remaining) (codes " AS " ++ quote_identifier (c ∷ alias))
      (quote_identifier-Binds remaining)
      (Binds-append (codes " AS ") (quote_identifier (c ∷ alias))
        (constant (codes " AS ") 0 refl refl) (quote_identifier-Binds (c ∷ alias)))

json_column-Binds : (base path alias : Text) → NoQuote path → Binds (json_column base path alias) 0
unfolding json_column after params
json_column-Binds base path alias plain =
    let path_part = codes ", '" ++ (path ++ codes "')") in
    let alias_part = codes " AS " ++ quote_identifier alias in
    Binds-append (codes "json_extract(") (quote_identifier base ++ (path_part ++ alias_part))
      (constant (codes "json_extract(") 0 refl refl)
      (Binds-append (quote_identifier base) (path_part ++ alias_part) (quote_identifier-Binds base)
        (Binds-append path_part alias_part (path_literal-Binds path plain) (
          Binds-append (codes " AS ") (quote_identifier alias) (constant (codes " AS ") 0 refl refl)
            (quote_identifier-Binds alias))))

json_path_of-NoQuote : (keys : List Text) → All NoQuote keys → NoQuote (json_path_of keys)
unfolding json_path_of
json_path_of-NoQuote keys h =
    (omega arith, (omega arith, join-All (λ c. c ≢ b'\'') (codes ".") keys (omega arith, tt) h))

-- A column of SELECT without a single quote becomes a text without parameters that leaves no quote
-- open.
pub build_select_column-Binds : (col : Text) → NoQuote col → Binds (build_select_column col) 0
unfolding build_select_column
build_select_column-Binds col h =
    let (alias, remaining) = alias_of col in
    (elim (json_keys remaining)
        as (λ r.
          OnSome (Found (λ c. c ≢ b'\'')) r
          → Binds
              (elim r [
                | none ↦ named_column col alias remaining
                | some (base, key, keys) ↦
                    json_column base (json_path_of (key ∷ keys))
                      (alias_or alias (last_key key keys))
              ])
              0) [
                | none ↦ λ _. named_column-Binds col alias remaining
                | some (base, key, keys) ↦ λ found.
                    json_column-Binds base (json_path_of (key ∷ keys))
                      (alias_or alias (last_key key keys)) (json_path_of-NoQuote (key ∷ keys) found)
              ])
      (json_keys-All (λ c. c ≢ b'\'') remaining (alias_of-All (λ c. c ≢ b'\'') col h))
