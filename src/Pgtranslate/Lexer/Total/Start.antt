-- ===== src/Pgtranslate/Lexer/Total/Start.antt =====
-- The positions of tokens, on each branch of the switch of `NextToken` (internal/pgtranslate/token.go).
use sblite.Prelude.{ℕ, Text, ◌≡◌, refl, some, none, arith, Option, head_or_zero}
use sblite.Pgtranslate.Token.{Position, TokenType}
use sblite.Pgtranslate.Lexer.State.{Lexer, Scan}
use sblite.Pgtranslate.Lexer.Literals.{
  quoted_token, read_string, read_quoted_identifier, dollar_token, dollar_tagged,
  read_dollar_quoted, number_token, read_number, ident_token, read_identifier,
}
use sblite.Pgtranslate.Lexer.Scan.{
  scan_literal, scan_operator, scan_minus, scan_less, scan_greater, scan_bang, scan_tilde, scan_bar,
  scan_colon, scan, scan_at,
}

pos-quoted_token :
    (t : TokenType) (q : ℕ) (m : Text) (pos : Position) (x : Option Text × Lexer)
    → (quoted_token t q m pos x).0.pos ≡ pos
unfolding quoted_token
pos-quoted_token t q m pos (none, l) = refl
pos-quoted_token t q m pos (some v, l) = refl

pos-dollar_token :
    (tag : Text) (pos : Position) (x : Option Text × Lexer) → (dollar_token tag pos x).0.pos ≡ pos
unfolding dollar_token
pos-dollar_token tag pos (none, l) = refl
pos-dollar_token tag pos (some v, l) = refl

pos-dollar_tagged : (pos : Position) (x : Text × Lexer) → (dollar_tagged pos x).0.pos ≡ pos
unfolding dollar_tagged
pos-dollar_tagged pos (name, l) = grind (arith, pos-dollar_token)

pos-scan_literal : (c : ℕ) (l : Lexer) → (scan_literal c l).0.pos ≡ l.at
unfolding scan_literal read_string read_quoted_identifier read_dollar_quoted read_number
    read_identifier number_token ident_token
pos-scan_literal c l = grind (arith, pos-quoted_token, pos-dollar_tagged)

abbrev StartsAt : Position → Option Scan → Type 0
StartsAt p none = Unit
StartsAt p (some s) = s.0.pos ≡ p

pos-scan_operator : (c : ℕ) (l : Lexer) → StartsAt l.at (scan_operator c l)
unfolding scan_operator scan_minus scan_less scan_greater scan_bang scan_tilde scan_bar scan_colon
pos-scan_operator c l = ground arith

pub pos-scan : (l : Lexer) → (scan l).0.pos ≡ l.at
unfolding scan_at
pos-scan l =
    let c = head_or_zero l.rest in ground (arith, pos-scan_operator c l, pos-scan_literal c l)
