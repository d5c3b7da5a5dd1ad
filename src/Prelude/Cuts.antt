-- ===== src/Prelude/Cuts.antt =====
-- Functions of Go's package strings that take texts apart, for separators of one byte or literals.
use Prim.Native.Nat.{ℕ, zero, suc, ◌-◌}
use mathlib.Core.List.{List, [], ◌∷◌, ◌++◌}
use mathlib.Core.Option.{Option, none, some}
use sblite.Prelude.Tests.{◌==◌, if◌then◌else◌}
use sblite.Prelude.Strings.{Text, has_prefix, str_eq}
use sblite.Prelude.Lists.{length}

-- What stands before and behind the first byte `c`: `strings.SplitN(s, c, 2)` where that has two
-- parts, and the slices around `strings.Index(s, c)`.
unfoldable pub cut : ℕ → Text → Option (Text × Text)
cut c [] = none
cut c (b ∷ s) =
    let rest = cut c s in
    if b == c
    then some ([], s)
    else elim rest [ none ↦ none | some parts ↦ some (b ∷ parts.0, parts.1) ]

unfoldable pub before_first : ℕ → List Text → List Text
before_first b [] = (b ∷ []) ∷ []
before_first b (s ∷ parts) = (b ∷ s) ∷ parts

-- strings.Split(s, c)
unfoldable pub split : ℕ → Text → List Text
unfolding before_first
split c [] = [] ∷ []
split c (b ∷ s) = let rest = split c s in if b == c then [] ∷ rest else before_first b rest

-- strings.TrimPrefix and strings.TrimSuffix with one byte
unfoldable pub trim_prefix : ℕ → Text → Text
trim_prefix c [] = []
trim_prefix c (b ∷ s) = if b == c then s else b ∷ s

unfoldable pub trim_suffix : ℕ → Text → Text
trim_suffix c [] = []
trim_suffix c (b ∷ []) = if b == c then [] else b ∷ []
trim_suffix c (b ∷ d ∷ s) = b ∷ trim_suffix c (d ∷ s)

-- strings.ReplaceAll(s, old, new) for an `old` that is not empty; `skip` bytes are left of a match.
unfoldable pub replace_from : Text → Text → ℕ → Text → Text
replace_from old new skip [] = []
replace_from old new (suc skip) (c ∷ s) = replace_from old new skip s
replace_from old new zero (c ∷ s) =
    let behind = replace_from old new (length old - 1) s in
    let next = replace_from old new zero s in
    if has_prefix (c ∷ s) old then new ++ behind else c ∷ next

abbrev pub replace_all : Text → Text → Text → Text
replace_all old new s = replace_from old new 0 s

-- The slices around `strings.Index(s, pattern)`; the second starts with the pattern.
unfoldable pub cut_text : Text → Text → Option (Text × Text)
cut_text pattern [] = none
cut_text pattern (b ∷ s) =
    let rest = cut_text pattern s in
    if has_prefix (b ∷ s) pattern
    then some ([], b ∷ s)
    else elim rest [ none ↦ none | some parts ↦ some (b ∷ parts.0, parts.1) ]

-- s[n:]
unfoldable pub drop : ℕ → Text → Text
drop zero s = s
drop (suc n) [] = []
drop (suc n) (b ∷ s) = drop n s

-- strings.Join(parts, separator)
unfoldable pub join : Text → List Text → Text
join separator [] = []
join separator (s ∷ []) = s
join separator (s ∷ t ∷ parts) = s ++ (separator ++ join separator (t ∷ parts))

-- What stands before the suffix, if the text has it: strings.HasSuffix with strings.TrimSuffix.
unfoldable pub strip_suffix : Text → Text → Option Text
unfolding str_eq
strip_suffix [] suffix = none
strip_suffix (b ∷ s) suffix =
    let rest = strip_suffix s suffix in
    if str_eq (b ∷ s) suffix
    then some []
    else elim rest [ none ↦ none | some before ↦ some (b ∷ before) ]

-- A result with an error's text.
pub data Result {ℓ} (A : Type ℓ) : Type ℓ where
  ok : A → Result A
  err : Text → Result A
