-- ===== src/Rest/Builder/Sorted.antt =====
-- The columns of a row in the order of `sort.Strings`, which compares bytes.
use sblite.Prelude.{comes_before, Text, Dict, ◌∷◌, [], if◌then◌else◌}

unfoldable pub insert_field {ℓ} : {V : Type ℓ} → Text → V → Dict V → Dict V
unfolding comes_before
insert_field k v [] = (k, v) ∷ []
insert_field k v ((j, w) ∷ m) =
    let rest = insert_field k v m in if comes_before j k then (j, w) ∷ rest else (k, v) ∷ (j, w) ∷ m

unfoldable pub sort_fields {ℓ} : {V : Type ℓ} → Dict V → Dict V
unfolding insert_field
sort_fields [] = []
sort_fields ((k, v) ∷ m) = insert_field k v (sort_fields m)
