-- ===== src/Prelude/Maps.antt =====
-- Go's maps with string keys, as association lists with one entry for each key. The order of the
-- entries stands for the order of a `range` over the map, which Go leaves open.
use mathlib.Core.Bool.{Bool, true, false}
use mathlib.Core.List.{List, [], ◌∷◌}
use mathlib.Core.Option.{Option, none, some}
use mathlib.Core.Path.{◌≡◌, refl}
use mathlib.Core.Logic.{inl, inr}
use native.Mathlib.Omega.{arith}
use sblite.Prelude.Tests.{Bool-cases, if◌then◌else◌}
use sblite.Prelude.Strings.{Text, str_eq, str_eq_iff}

abbrev pub Dict {ℓ} : Type ℓ → Type ℓ
Dict V = List (Text × V)

module _ {ℓ} {V : Type ℓ} where
  -- v, ok := m[k]
  unfoldable pub lookup : Text → Dict V → Option V
  lookup k [] = none
  lookup k ((j, v) ∷ m) = if str_eq j k then some v else lookup k m

  -- m[k] = v
  unfoldable pub insert : Text → V → Dict V → Dict V
  insert k v [] = (k, v) ∷ []
  insert k v ((j, w) ∷ m) = if str_eq j k then (k, v) ∷ m else (j, w) ∷ insert k v m

  -- delete(m, k)
  unfoldable pub delete : Text → Dict V → Dict V
  delete k [] = []
  delete k ((j, v) ∷ m) = let rest = delete k m in if str_eq j k then rest else (j, v) ∷ rest

  -- len(m) == 0
  unfoldable pub is_empty : Dict V → Bool
  is_empty [] = true
  is_empty (_ ∷ _) = false

  pub lookup-insert :
      (k j : Text) (v : V) (m : Dict V)
      → lookup j (insert k v m) ≡ (if str_eq k j then some v else lookup j m)
  unfolding lookup insert
  lookup-insert k j v [] = refl
  lookup-insert k j v ((i, w) ∷ m) =
      ground (arith, str_eq_iff k j, str_eq_iff i k, str_eq_iff i j, lookup-insert k j v m)

  pub lookup-delete :
      (k j : Text) (m : Dict V) → lookup j (delete k m) ≡ (if str_eq k j then none else lookup j m)
  unfolding lookup delete
  lookup-delete k j [] = ground arith
  lookup-delete k j ((i, w) ∷ m) =
      ground (arith, str_eq_iff k j, str_eq_iff i k, str_eq_iff i j, lookup-delete k j m)

  pub is_empty-insert : (k : Text) (v : V) (m : Dict V) → is_empty (insert k v m) ≡ false
  unfolding is_empty insert
  is_empty-insert k v [] = refl
  is_empty-insert k v ((j, w) ∷ m) = ground arith

-- Each key has one entry.
abbrev pub IsDistinct {ℓ} : {V : Type ℓ} → Dict V → Type ℓ
IsDistinct [] = Unit
IsDistinct {V} ((k, v) ∷ m) = (lookup k m ≡ none) × IsDistinct {V = V} m

module _ {ℓ} {V : Type ℓ} where
  insert_cons :
      (k j : Text) (v w : V) (m : Dict V)
      → insert k v ((j, w) ∷ m) ≡ (if str_eq j k then (k, v) ∷ m else (j, w) ∷ insert k v m)
  unfolding insert
  insert_cons k j v w m = refl

  delete_cons :
      (k j : Text) (w : V) (m : Dict V)
      → delete k ((j, w) ∷ m) ≡ (if str_eq j k then delete k m else (j, w) ∷ delete k m)
  unfolding delete
  delete_cons k j w m = refl

  pub insert-IsDistinct : (k : Text) (v : V) (m : Dict V) → IsDistinct m → IsDistinct (insert k v m)
  insert-IsDistinct k v [] h = unfold insert lookup in (refl, tt)
  insert-IsDistinct k v ((j, w) ∷ m) (h, hs) =
      let rest = insert-IsDistinct k v m hs in
      elim (Bool-cases (str_eq j k)) [
        | inl same ↦ rw (insert_cons, same) (rw ((str_eq_iff j k).0 same) at h, hs)
        | inr other ↦
            let kj : str_eq k j ≡ false = ground (arith, str_eq_iff j k, str_eq_iff k j) in
            rw (insert_cons, other) (rw (lookup-insert, kj) h, rest)
      ]

  pub delete-IsDistinct : (k : Text) (m : Dict V) → IsDistinct m → IsDistinct (delete k m)
  delete-IsDistinct k [] h = unfold delete in tt
  delete-IsDistinct k ((j, w) ∷ m) (h, hs) =
      let rest = delete-IsDistinct k m hs in
      elim (Bool-cases (str_eq j k)) [
        | inl same ↦ rw (delete_cons, same) rest
        | inr other ↦ rw (delete_cons, other) (rw lookup-delete (ground (arith, h)), rest)
      ]
