-- ===== src/Prelude/Strings.antt =====
-- Go's `string` is a sequence of bytes: a list of numbers here. `codes` spells a literal; all
-- literals of this development are ASCII, so that its code points are its bytes.
use Prim.Native.Char.{code}
use Prim.Native.Nat.{ℕ}
use Prim.Native.String.{String}
use mathlib.Core.Bool.{Bool, true, false, ◌&&◌}
use mathlib.Core.List.{List, [], ◌∷◌}
use mathlib.Core.Logic.{◌↔◌}
use mathlib.Core.Path.{◌≡◌, refl}
use native.Mathlib.Omega.{arith}
use sblite.Prelude.Tests.{◌==◌, ltb, if◌then◌else◌}
use sblite.Prelude.Lists.{length}
use Prim.Native.Nat.{◌≤◌}

abbrev pub Text : Type 0
Text = List ℕ

abbrev pub codes : String → Text
codes String.[] = []
codes (String.◌∷◌ c s) = code c ∷ codes s

-- s == t on strings
unfoldable pub str_eq : Text → Text → Bool
str_eq [] [] = true
str_eq (a ∷ s) (b ∷ t) = a == b && str_eq s t
str_eq _ _ = false

pub str_eq_iff : (s t : Text) → (str_eq s t ≡ true) ↔ (s ≡ t)
unfolding str_eq
str_eq_iff (a ∷ s) (b ∷ t) = ground (arith, str_eq_iff s t)
str_eq_iff _ _ = ground arith

pub str_eq_refl : (s : Text) → str_eq s s ≡ true
str_eq_refl s = (str_eq_iff s s).1 refl

-- strings.HasPrefix
unfoldable pub has_prefix : Text → Text → Bool
has_prefix s [] = true
has_prefix [] (b ∷ t) = false
has_prefix (a ∷ s) (b ∷ t) = a == b && has_prefix s t

-- The first byte, and 0 where there is none.
abbrev pub head_or_zero : Text → ℕ
head_or_zero [] = 0
head_or_zero (c ∷ r) = c

pub length-has_prefix : (s t : Text) → has_prefix s t ≡ true → length t ≤ length s
unfolding has_prefix
length-has_prefix s [] h = omega arith
length-has_prefix [] (b ∷ t) h = cc
length-has_prefix (a ∷ s) (b ∷ t) h = ground (arith, length-has_prefix s t)

-- s < t on strings, which compares bytes.
unfoldable pub comes_before : Text → Text → Bool
comes_before s [] = false
comes_before [] (c ∷ t) = true
comes_before (b ∷ s) (c ∷ t) =
    let rest = comes_before s t in if ltb b c then true else if ltb c b then false else rest
