-- ===== src/Pgtranslate/Lexer/Advance/Operators.antt =====
-- How far the lexer reads for the operators of one to three characters (internal/pgtranslate/token.go).
use sblite.Prelude.{ℕ, Text, tail, head_or_zero, refl, some, arith, [], ◌∷◌, Option, none, ◌≢◌}
use sblite.Pgtranslate.Token.{Position}
use sblite.Pgtranslate.Lexer.State.{arrive, read_char, Scan}
use sblite.Pgtranslate.Lexer.Progress.{
  Advances, step-Advances, Reaches-refl, arrive-Reaches, read_two-Reaches,
}
use sblite.Pgtranslate.Lexer.Scan.{
  scan_minus, scan_less, scan_greater, scan_bang, scan_tilde, scan_bar, scan_colon, scan_operator,
}

pub read_one-Advances : (c : ℕ) (r : Text) (p : Position) → Advances (c ∷ r) p (arrive r p)
read_one-Advances c r p = step-Advances c r p (Reaches-refl r _)

read_two-Advances :
    (c : ℕ) (r : Text) (p : Position)
    → head_or_zero r ≢ 0
    → Advances (c ∷ r) p (read_char (arrive r p))
read_two-Advances c [] p h = absurd (h refl)
read_two-Advances c (d ∷ r) p h = step-Advances c (d ∷ r) p (arrive-Reaches d r _)

read_three-Advances :
    (c : ℕ) (r : Text) (p : Position)
    → head_or_zero r ≢ 0
    → head_or_zero (tail r) ≢ 0
    → Advances (c ∷ r) p (read_char (read_char (arrive r p)))
read_three-Advances c [] p h k = absurd (h refl)
read_three-Advances c (d ∷ []) p h k = absurd (k refl)
read_three-Advances c (d ∷ e ∷ r) p h k = step-Advances c (d ∷ e ∷ r) p (read_two-Reaches d e r _)

abbrev pub IsAdvance : Text → Position → Option Scan → Type 0
IsAdvance r p none = Unit
IsAdvance r p (some s) = Advances r p s.1

pub scan_operator-Advances :
    (c : ℕ) (r : Text) (p : Position)
    → IsAdvance (c ∷ r) p (scan_operator c (record { rest = c ∷ r; at = p }))
unfolding scan_operator scan_minus scan_less scan_greater scan_bang scan_tilde scan_bar scan_colon
scan_operator-Advances c r p =
    ground (arith, read_one-Advances c r p, read_two-Advances c r p, read_three-Advances c r p)
