-- ===== src/Numbers.antt =====
-- Integers and how fmt prints them with %d.
use sblite.Prelude.{ℕ, zero, suc, Text, ltb, ◌+◌, ◌/◌, ◌%◌, [], ◌∷◌, ◌++◌, if◌then◌else◌}

-- `negsuc n` is -(n + 1).
pub data ℤ : Type 0 where
  pos : ℕ → ℤ
  negsuc : ℕ → ℤ

-- The digits of a number below 10 ^ fuel.
unfoldable pub digits : ℕ → ℕ → Text
digits zero n = (48 + n % 10) ∷ []
digits (suc fuel) n =
    let high = digits fuel (n / 10) in
    if ltb n 10 then (48 + n) ∷ [] else high ++ (48 + n % 10) ∷ []

unfoldable pub print_int : ℤ → Text
unfolding digits
print_int (pos n) = digits n n
print_int (negsuc n) = b'-' ∷ digits (suc n) (suc n)
