-- ===== src/Pgtranslate/Lexer/Advance.antt =====
-- How far the lexer reads for one token, on each branch of the switch of `NextToken` (internal/pgtranslate/token.go).
mod Literals
mod Operators
use Literals.{scan_literal-Advances}
use Operators.{scan_operator-Advances, read_one-Advances, IsAdvance}
use sblite.Prelude.{
  ℕ, zero, suc, Text, length, head_or_zero, ◌==◌, ◌≡◌, ◌≢◌, refl, some, none, arith, [], ◌∷◌,
  Option, Option-cases, inl, inr,
}
use sblite.Pgtranslate.Token.{Position, TokenType}
use sblite.Pgtranslate.Lexer.State.{Lexer, Scan}
use sblite.Pgtranslate.Lexer.Progress.{Advances}
use sblite.Pgtranslate.Lexer.Scan.{scan, scan_at, single, scan_operator, scan_literal, take_one}

-- The switch on a character that is not 0.
pub scan-Advances :
    (c : ℕ) (r : Text) (p : Position)
    → c ≢ 0
    → Advances (c ∷ r) p (scan (record { rest = c ∷ r; at = p })).1
unfolding scan_at
scan-Advances c r p h =
    ground
      (arith, read_one-Advances c r p, scan_operator-Advances c r p, scan_literal-Advances c r p)
