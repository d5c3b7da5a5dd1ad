-- ===== src/Rest/Parsing.antt =====
-- What ParseFilter, ParseFTSFilter and parseJSONPathFilter of internal/rest/query.go return.
use mathlib.Core.Option.{some-injective}
use sblite.Prelude.{
  ap, ℕ, zero, suc, Text, codes, ◌≡◌, ◌≢◌, ◌<◌, ◌≤◌, refl, arith, [], ◌∷◌, ◌++◌, List, All, lookup,
  Dict, some, none, Option, Bool, true, false, Bool-cases, Option-cases, inl, inr, ◌==◌, cut,
  cut_text, drop, has_prefix, length, ok, err, str_eq, str_eq_iff, ◌∙◌,
}
use sblite.Rest.Filters.{
  Filter, FtsFilter, valid_operators, parse_filter, parse_fts_filter, path_parts, is_fts_operator,
  parse_fts_operator, parse_operator, parens, filter_on, fts_operators, parse_json_path_filter,
}

behind-none :
    (b : ℕ) (r : Option (Text × Text))
    → (elim r as (λ _. Option (Text × Text)) [
      | none ↦ none
      | some parts ↦ some (b ∷ parts.0, parts.1)
    ])
      ≡ none
    → r ≡ none
behind-none b none _ = refl
behind-none b (some parts) e = cc

cut-behind : (c : ℕ) (s t : Text) → cut c s ≡ none → cut c (s ++ c ∷ t) ≡ some (s, t)
unfolding cut
cut-behind c [] t _ = ground arith
cut-behind c (b ∷ s) t e = elim (Bool-cases (b == c)) [
  | inl same ↦ cc (rw same at e)
  | inr other ↦ rw (other, cut-behind c s t (behind-none b (cut c s) (rw other at e))) refl
]

cut-none : (c : ℕ) (s : Text) → All (λ b. b ≢ c) s → cut c s ≡ none
unfolding cut
cut-none c [] _ = refl
cut-none c (b ∷ s) (h, hs) = ground (arith, cut-none c s hs)

no_arrow : (s : Text) → All (λ b. b ≢ b'-') s → cut_text (codes "->") s ≡ none
unfolding cut_text has_prefix
no_arrow [] _ = refl
no_arrow (b ∷ s) (h, hs) = ground (arith, no_arrow s hs)

-- What holds of all keys holds of one that is found.
lookup-key {ℓ} :
    {V : Type ℓ} (P : Text → Type 0) (k : Text) (v : V) (m : Dict V)
    → All (λ e. P e.0) m
    → lookup k m ≡ some v
    → P k
unfolding lookup
lookup-key P k v [] _ e = cc
lookup-key P k v ((j, w) ∷ m) (h, hs) e = elim (Bool-cases (str_eq j k)) [
  | inl same ↦ rw ((str_eq_iff j k).0 same) at h
  | inr other ↦ lookup-key P k v m hs (rw other at e)
]

abbrev IsPlainOperator : Text → Type 0
IsPlainOperator op = (cut b'.' op ≡ none) × (is_fts_operator op ≡ false)

operators-IsPlainOperator : All (λ e. IsPlainOperator e.0) valid_operators
unfolding valid_operators is_fts_operator cut parse_fts_operator parens fts_operators str_eq
operators-IsPlainOperator = (
  (refl, refl),
  (
    (refl, refl),
    (
      (refl, refl),
      (
        (refl, refl),
        (
          (refl, refl),
          (
            (refl, refl),
            ((refl, refl), ((refl, refl), ((refl, refl), ((refl, refl), ((refl, refl), tt))))),
          ),
        ),
      ),
    ),
  ),
)

-- The end of ParseFilter on a plain column name.
filter_on-simple :
    (column operator value : Text)
    → cut b'.' column ≡ none
    → cut_text (codes "->") column ≡ none
    → filter_on column operator value ≡ record {
      column = column;
      operator = operator;
      value = value;
      related_table = [];
      related_column = [];
      json_path = [];
      json_text = false;
    }
unfolding filter_on parse_json_path_filter
filter_on-simple column operator value h k = rw (filter_on, parse_json_path_filter, k, h) refl

-- On one with a dot.
filter_on-related :
    (table related operator value : Text)
    → cut b'.' table ≡ none
    → cut_text (codes "->") (table ++ b'.' ∷ related) ≡ none
    → filter_on (table ++ b'.' ∷ related) operator value ≡ record {
      column = table ++ b'.' ∷ related;
      operator = operator;
      value = value;
      related_table = table;
      related_column = related;
      json_path = [];
      json_text = false;
    }
unfolding filter_on parse_json_path_filter
filter_on-related table related operator value h k =
    rw (filter_on, parse_json_path_filter, k, cut-behind b'.' table related h) refl

parse_filter-filter_on :
    (column operator value sql : Text)
    → cut b'=' column ≡ none
    → lookup operator valid_operators ≡ some sql
    → parse_filter (column ++ b'=' ∷ (operator ++ b'.' ∷ value))
      ≡ ok (filter_on column operator value)
unfolding parse_filter parse_operator
parse_filter-filter_on column operator value sql h e =
    let (undotted, no_fts) =
      lookup-key IsPlainOperator operator sql valid_operators operators-IsPlainOperator e in
    rw
      (
        parse_filter,
        cut-behind b'=' column (operator ++ b'.' ∷ value) h,
        cut-behind b'.' operator value undotted,
        parse_operator,
        no_fts,
        e,
      )
      refl

-- "column=operator.value" is read as the filter on that column with that operator and that value,
-- whatever the value is, with no related table and no JSON path: the operator is one of the valid ones,
-- and the column has no "=", no "." and no "->".
pub parse_filter-text :
    (column operator value sql : Text)
    → cut b'=' column ≡ none
    → cut b'.' column ≡ none
    → cut_text (codes "->") column ≡ none
    → lookup operator valid_operators ≡ some sql
    → parse_filter (column ++ b'=' ∷ (operator ++ b'.' ∷ value))
      ≡ ok (record {
        column = column;
        operator = operator;
        value = value;
        related_table = [];
        related_column = [];
        json_path = [];
        json_text = false;
      })
parse_filter-text column operator value sql h undotted no_path e =
    parse_filter-filter_on column operator value sql h e
    ∙ ap ok (filter_on-simple column operator value undotted no_path)

-- "table.related=operator.value" is read as the filter on that related column of that table with that
-- operator and that value, whatever the value is: the operator is one of the valid ones, the table has
-- no ".", and neither "=" nor "->" is in "table.related".
pub parse_filter-related :
    (table related operator value sql : Text)
    → cut b'=' (table ++ b'.' ∷ related) ≡ none
    → cut b'.' table ≡ none
    → cut_text (codes "->") (table ++ b'.' ∷ related) ≡ none
    → lookup operator valid_operators ≡ some sql
    → parse_filter ((table ++ b'.' ∷ related) ++ b'=' ∷ (operator ++ b'.' ∷ value))
      ≡ ok (record {
        column = table ++ b'.' ∷ related;
        operator = operator;
        value = value;
        related_table = table;
        related_column = related;
        json_path = [];
        json_text = false;
      })
parse_filter-related table related operator value sql h undotted no_path e =
    parse_filter-filter_on (table ++ b'.' ∷ related) operator value sql h e
    ∙ ap ok (filter_on-related table related operator value undotted no_path)

-- The error, or the absence of one, of the two parsers on the same operator.
parse_operator-fts :
    (column operator value : Text)
    → is_fts_operator operator ≡ true
    → (e : Text) × (parse_operator column operator value ≡ err (codes "fts_operator:" ++ e))
unfolding parse_operator
parse_operator-fts column operator value h =
    (column ++ (codes ":" ++ (operator ++ (codes ":" ++ value))), rw (parse_operator, h) refl)

parse_operator-ok :
    (column operator value : Text) (f : Filter)
    → parse_operator column operator value ≡ ok f
    → is_fts_operator operator ≡ false
unfolding parse_operator
parse_operator-ok column operator value f h = elim (Bool-cases (is_fts_operator operator)) [
  | inl fts ↦ cc (rw (parse_operator, fts) at h)
  | inr other ↦ other
]

-- A text that ParseFTSFilter takes is refused by ParseFilter with an error that starts with
-- "fts_operator:".
pub parse_filter-fts :
    (input : Text) (f : FtsFilter)
    → parse_fts_filter input ≡ ok (some f)
    → (e : Text) × (parse_filter input ≡ err (codes "fts_operator:" ++ e))
unfolding parse_filter parse_fts_filter is_fts_operator
parse_filter-fts input f h = elim (Option-cases (cut b'=' input)) [
  | inl absent ↦ cc (rw (parse_fts_filter, absent) at h)
  | inr ((column, op_value), found) ↦ elim (Option-cases (cut b'.' op_value)) [
    | inl undotted ↦ cc (rw (parse_fts_filter, found, undotted) at h)
    | inr ((operator, value), dotted) ↦ elim (Bool-cases (is_fts_operator operator)) [
      | inl fts ↦ rw (parse_filter, found, dotted) (parse_operator-fts column operator value fts)
      | inr other ↦ cc (rw (parse_fts_filter, found, dotted, other) at h)
    ]
  ]
]

-- A filter that ParseFilter returns: ParseFTSFilter takes the same text for no filter of its own,
-- without an error.
pub parse_filter-no_fts :
    (input : Text) (f : Filter) → parse_filter input ≡ ok f → parse_fts_filter input ≡ ok none
unfolding parse_filter parse_fts_filter is_fts_operator
parse_filter-no_fts input f h = elim (Option-cases (cut b'=' input)) [
  | inl absent ↦ cc (rw (parse_filter, absent) at h)
  | inr ((column, op_value), found) ↦ elim (Option-cases (cut b'.' op_value)) [
    | inl undotted ↦ cc (rw (parse_filter, found, undotted) at h)
    | inr ((operator, value), dotted) ↦
        let other =
          parse_operator-ok column operator value f (rw (parse_filter, found, dotted) at h) in
        rw (parse_fts_filter, found, dotted, other) refl
  ]
]

-- The bytes from a match on are no more than all bytes, and fewer if it is not at the start.
length-behind :
    (b n : ℕ) (r : Option (Text × Text)) (before rest : Text)
    → ((p q : Text) → r ≡ some (p, q) → length q ≤ n)
    → (elim r as (λ _. Option (Text × Text)) [
      | none ↦ none
      | some parts ↦ some (b ∷ parts.0, parts.1)
    ])
      ≡ some (before, rest)
    → length rest ≤ n
length-behind b n none before rest h e = cc
length-behind b n (some (p, q)) before rest h e =
    rw (ap (λ (x : Text × Text). x.1) (some-injective _ _ e)) at (h p q refl)

length-cut_text :
    (pattern s before rest : Text)
    → cut_text pattern s ≡ some (before, rest)
    → length rest ≤ length s
unfolding cut_text
length-cut_text pattern [] before rest e = cc
length-cut_text pattern (b ∷ s) before rest e = elim (Bool-cases (has_prefix (b ∷ s) pattern)) [
  | inl start ↦
      omega (
        arith,
        ap (λ (x : Text × Text). length x.1) (some-injective _ _ (rw (cut_text, start) at e)),
      )
  | inr later ↦ omega (
    arith,
    length-behind b (length s) (cut_text pattern s) before rest (length-cut_text pattern s)
        (rw (cut_text, later) at e),
  )
]

length-drop : (n : ℕ) (s : Text) → length (drop n s) ≤ length s
unfolding drop
length-drop zero s = omega arith
length-drop (suc n) [] = omega arith
length-drop (suc n) (b ∷ s) = omega (arith, length-drop n s)

abbrev Total {ℓ} : {A : Type ℓ} → Option A → Type ℓ
Total {A} r = (x : A) × (r ≡ some x)

-- The fuel of `path_parts` is enough where it is more than the bytes that remain.
pub path_parts-some :
    (fuel : ℕ) (is_text : Bool) (s : Text)
    → length s < fuel
    → (r : List Text × Bool) × (path_parts fuel is_text s ≡ some r)
unfolding path_parts
path_parts-some zero is_text s h = (([], is_text), ground arith)
path_parts-some (suc fuel) is_text [] h = (([], is_text), refl)
path_parts-some (suc fuel) is_text (b ∷ s) h =
    elim (Bool-cases (has_prefix (b ∷ s) (codes "->>"))) [
      | inl text_arrow ↦
          rw (path_parts, text_arrow)
            (path_parts-some fuel true (drop 3 (b ∷ s))
              (unfold drop in omega (arith, length-drop 2 s)))
      | inr other ↦ elim (Bool-cases (has_prefix (b ∷ s) (codes "->"))) [
        | inl arrow ↦
            rw (path_parts, other, arrow)
              (path_parts-some fuel is_text (drop 2 (b ∷ s))
                (unfold drop in omega (arith, length-drop 1 s)))
        | inr key ↦ elim (Option-cases (cut_text (codes "->") s)) [
          | inl last ↦ (((b ∷ s) ∷ [], is_text), rw (path_parts, other, key, last) refl)
          | inr ((before, rest), found) ↦
              let ((keys, t), e) =
                path_parts-some fuel is_text rest
                  (omega (arith, length-cut_text (codes "->") s before rest found)) in
              (((b ∷ before) ∷ keys, t), rw (path_parts, other, key, found, e) refl)
        ]
      ]
    ]
