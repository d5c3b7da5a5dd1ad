-- ===== src/Rest/Builder/Order.antt =====
-- The order in which Go iterates over the `map` of a row, and the statements of internal/rest/builder.go.
use sblite.Prelude.{
  comes_before, Text, Dict, IsDistinct, lookup, Bool, true, false, not, none, ◌≡◌, refl, ap, ◌∙◌,
  arith, [], ◌∷◌, str_eq, str_eq_iff, List,
}
use sblite.Values.{Any, Conversions}
use sblite.Rest.Builder.{Query}
use sblite.Rest.Builder.Sorted.{insert_field, sort_fields}
use sblite.Rest.Builder.Statements.{build_insert_query, build_upsert_query, build_update_query}

comes_before_cotrans :
    (s t u : Text) → comes_before s u ≡ true → comes_before s t ≡ false → comes_before t u ≡ true
unfolding comes_before
comes_before_cotrans [] [] u h k = h
comes_before_cotrans [] (c ∷ t) u h k = cc
comes_before_cotrans (b ∷ s) t [] h k = cc
comes_before_cotrans (b ∷ s) [] (d ∷ u) h k = refl
comes_before_cotrans (b ∷ s) (c ∷ t) (d ∷ u) h k = ground (arith, comes_before_cotrans s t u)

comes_before_total : (s t : Text) → str_eq s t ≡ false → comes_before s t ≡ not (comes_before t s)
unfolding comes_before str_eq
comes_before_total [] [] h = cc
comes_before_total [] (c ∷ t) h = refl
comes_before_total (b ∷ s) [] h = refl
comes_before_total (b ∷ s) (c ∷ t) h = ground (arith, comes_before_total s t)

module _ {ℓ} {V : Type ℓ} where
  insert_field_comm :
      (k j : Text) (v w : V) (m : Dict V)
      → str_eq k j ≡ false
      → insert_field k v (insert_field j w m) ≡ insert_field j w (insert_field k v m)
  unfolding insert_field
  insert_field_comm k j v w [] h = ground (arith, comes_before_total k j h)
  insert_field_comm k j v w ((i, u) ∷ m) h = ground (
    arith,
    comes_before_total k j h,
    insert_field_comm k j v w m h,
    comes_before_cotrans i k j,
    comes_before_cotrans i j k,
  )

-- The same fields in another order.
pub data Reordered {ℓ} {V : Type ℓ} : Dict V → Dict V → Type ℓ where
  no_fields : Reordered [] []
  same_first :
      {k : Text} {v : V} {m n : Dict V} → Reordered m n → Reordered ((k, v) ∷ m) ((k, v) ∷ n)
  swapped :
      {k j : Text} {v w : V} {m : Dict V} → Reordered ((k, v) ∷ (j, w) ∷ m) ((j, w) ∷ (k, v) ∷ m)
  in_turn : {m n o : Dict V} → Reordered m n → Reordered n o → Reordered m o

module _ {ℓ} {V : Type ℓ} where
  lookup-rest :
      (k j : Text) (w : V) (m : Dict V)
      → lookup k ((j, w) ∷ m) ≡ none
      → (str_eq k j ≡ false) × (lookup k m ≡ none)
  unfolding lookup
  lookup-rest k j w m h = ground (arith, str_eq_iff k j, str_eq_iff j k)

  lookup-other :
      (k j : Text) (v : V) (m : Dict V)
      → str_eq k j ≡ false
      → lookup j m ≡ none
      → lookup j ((k, v) ∷ m) ≡ none
  unfolding lookup
  lookup-other k j v m h e = ground arith

  lookup-Reordered :
      (i : Text) {m n : Dict V} → Reordered m n → lookup i m ≡ none → lookup i n ≡ none
  unfolding lookup
  lookup-Reordered i no_fields h = h
  lookup-Reordered i (same_first r) h = ground (arith, lookup-Reordered i r)
  lookup-Reordered i swapped h = ground arith
  lookup-Reordered i (in_turn r s) h = lookup-Reordered i s (lookup-Reordered i r h)

  IsDistinct-Reordered : {m n : Dict V} → Reordered m n → IsDistinct m → IsDistinct n
  IsDistinct-Reordered no_fields h = h
  IsDistinct-Reordered (same_first {k} r) (h, hs) =
      (lookup-Reordered k r h, IsDistinct-Reordered r hs)
  IsDistinct-Reordered (swapped {k} {j} {v} {w} {m}) (h, (hj, hs)) =
      let (other, absent) = lookup-rest k j w m h in (lookup-other k j v m other hj, (absent, hs))
  IsDistinct-Reordered (in_turn r s) h = IsDistinct-Reordered s (IsDistinct-Reordered r h)

  sort_fields-Reordered :
      {m n : Dict V} → Reordered m n → IsDistinct m → sort_fields m ≡ sort_fields n
  unfolding sort_fields
  sort_fields-Reordered no_fields h = refl
  sort_fields-Reordered (same_first {k} {v} r) (h, hs) =
      ap (insert_field k v) (sort_fields-Reordered r hs)
  sort_fields-Reordered (swapped {k} {j} {v} {w} {m}) (h, hs) =
      insert_field_comm k j v w (sort_fields m) (lookup-rest k j w m h).0
  sort_fields-Reordered (in_turn r s) h =
      sort_fields-Reordered r h ∙ sort_fields-Reordered s (IsDistinct-Reordered r h)

-- The order in which the fields of a row are iterated over does not change an INSERT, an upsert or an
-- UPDATE, where no two fields have the same name.
pub statements-Reordered :
    (conv : Conversions) (q : Query) (table : Text) (conflict : List Text)
    (ignore_duplicates : Bool) {row row' : Dict Any}
    → Reordered row row'
    → IsDistinct row
    → (build_insert_query table row ≡ build_insert_query table row')
      × (build_upsert_query table row conflict ignore_duplicates
          ≡ build_upsert_query table row' conflict ignore_duplicates)
      × (build_update_query conv q row ≡ build_update_query conv q row')
unfolding build_insert_query build_upsert_query build_update_query
statements-Reordered conv q table conflict ignore_duplicates r h =
    let same = sort_fields-Reordered r h in (rw same refl, rw same refl, rw same refl)
