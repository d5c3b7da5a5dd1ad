-- ===== src/Pgtranslate/Lexer/Advance/Literals.antt =====
-- How far the readers of literals go: strings, quoted identifiers, dollar quotes, numbers and
-- identifiers (internal/pgtranslate/token.go).
use sblite.Prelude.{
  ℕ, zero, suc, Text, length, head_or_zero, ◌≡◌, refl, some, arith, ◌≤◌, [], ◌∷◌, ◌++◌, Option,
  none, Bool, length-has_prefix, true, false, ◌==◌, ◌||◌,
}
use sblite.Pgtranslate.Lexer.Scan.{scan_literal}
use sblite.Pgtranslate.Token.{Position, TokenType}
use sblite.Pgtranslate.Lexer.State.{Lexer, move, is_ident_char, is_digit, is_ident_start}
use sblite.Pgtranslate.Lexer.Progress.{
  Reaches, Advances, step-Advances, step-Reaches, Reaches-refl, arrive-Reaches, Reaches-trans,
  Advances-trans,
}
use sblite.Pgtranslate.Lexer.Literals.{
  quoted_body, quoted_token, read_string, read_quoted_identifier, read_while, read_chars,
  dollar_body, dollar_token, dollar_tagged, read_dollar_quoted, read_decimals, read_if,
  read_exponent, read_number, read_identifier, read_digits,
}

quoted_body-Reaches : (q : ℕ) (sb r : Text) (p : Position) → Reaches r p (quoted_body q sb r p).1
unfolding quoted_body
quoted_body-Reaches q sb [] p = Reaches-refl [] p
quoted_body-Reaches q sb (c ∷ []) p = ground (arith, Reaches-refl (c ∷ []) p, arrive-Reaches c [] p)
quoted_body-Reaches q sb (c ∷ d ∷ r) p = ground (
  arith,
  Reaches-refl (c ∷ d ∷ r) p,
  arrive-Reaches c (d ∷ r) p,
  step-Reaches c (d ∷ r) p (quoted_body-Reaches q (sb ++ c ∷ []) (d ∷ r) (move p d)),
  step-Reaches c (d ∷ r) p (
      step-Reaches d r (move p d)
        (quoted_body-Reaches q (sb ++ q ∷ []) r (move (move p d) (head_or_zero r)))),
)

quoted_token_lexer :
    (t : TokenType) (q : ℕ) (m : Text) (pos : Position) (x : Option Text × Lexer)
    → (quoted_token t q m pos x).1 ≡ x.1
unfolding quoted_token
quoted_token_lexer t q m pos (none, l) = refl
quoted_token_lexer t q m pos (some v, l) = refl

read_string-Advances :
    (c : ℕ) (r : Text) (p : Position)
    → Advances (c ∷ r) p (read_string (record { rest = c ∷ r; at = p })).1
unfolding read_string
read_string-Advances c r p =
    rw quoted_token_lexer (step-Advances c r p (quoted_body-Reaches _ _ _ _))

read_quoted_identifier-Advances :
    (c : ℕ) (r : Text) (p : Position)
    → Advances (c ∷ r) p (read_quoted_identifier (record { rest = c ∷ r; at = p })).1
unfolding read_quoted_identifier
read_quoted_identifier-Advances c r p =
    rw quoted_token_lexer (step-Advances c r p (quoted_body-Reaches _ _ _ _))

read_while-Reaches :
    (test : ℕ → Bool) (sb r : Text) (p : Position) → Reaches r p (read_while test sb r p).1
unfolding read_while
read_while-Reaches test sb [] p = Reaches-refl [] p
read_while-Reaches test sb (c ∷ r) p = ground (
  arith,
  Reaches-refl (c ∷ r) p,
  step-Reaches c r p (read_while-Reaches test (sb ++ c ∷ []) r (move p (head_or_zero r))),
)

read_chars-Reaches :
    (n : ℕ) (r : Text) (p : Position)
    → n ≤ length r
    → Reaches r p (read_chars n (record { rest = r; at = p }))
unfolding read_chars
read_chars-Reaches zero r p h = Reaches-refl r p
read_chars-Reaches (suc n) [] p h = absurd (omega arith)
read_chars-Reaches (suc n) (c ∷ r) p h =
    step-Reaches c r p (read_chars-Reaches n r (move p (head_or_zero r)) (omega arith))

dollar_body-Reaches : (tag sb r : Text) (p : Position) → Reaches r p (dollar_body tag sb r p).1
unfolding dollar_body
dollar_body-Reaches tag sb [] p = Reaches-refl [] p
dollar_body-Reaches tag sb (c ∷ r) p = ground (
  arith,
  Reaches-refl (c ∷ r) p,
  length-has_prefix (c ∷ r) tag,
  read_chars-Reaches (length tag) (c ∷ r) p,
  step-Reaches c r p (dollar_body-Reaches tag (sb ++ c ∷ []) r (move p (head_or_zero r))),
)

dollar_token_lexer :
    (tag : Text) (pos : Position) (x : Option Text × Lexer) → (dollar_token tag pos x).1 ≡ x.1
unfolding dollar_token
dollar_token_lexer tag pos (none, l) = refl
dollar_token_lexer tag pos (some v, l) = refl

dollar_tagged-Reaches :
    (pos : Position) (name r : Text) (p : Position)
    → Reaches r p (dollar_tagged pos (name, record { rest = r; at = p })).1
unfolding dollar_tagged
dollar_tagged-Reaches pos name [] p = Reaches-refl [] p
dollar_tagged-Reaches pos name (c ∷ r) p =
    let tag = name ++ b'$' ∷ [] in
    let q = move p (head_or_zero r) in
    ground (
      arith,
      Reaches-refl (c ∷ r) p,
      dollar_token_lexer tag pos (dollar_body tag [] r q),
      step-Reaches c r p (dollar_body-Reaches tag [] r q),
    )

read_dollar_quoted-Advances :
    (c : ℕ) (r : Text) (p : Position)
    → Advances (c ∷ r) p (read_dollar_quoted (record { rest = c ∷ r; at = p })).1
unfolding read_dollar_quoted
read_dollar_quoted-Advances c r p =
    let q = move p (head_or_zero r) in
    let (name, l) = read_while is_ident_char (b'$' ∷ []) r q in
    let tagged : Reaches l.rest l.at (dollar_tagged p (name, l)).1 =
      dollar_tagged-Reaches p name l.rest l.at in
    step-Advances c r p (Reaches-trans l (read_while-Reaches is_ident_char (b'$' ∷ []) r q) tagged)

-- A loop whose test holds reads the first character.
read_while-Advances :
    (test : ℕ → Bool) (sb : Text) (c : ℕ) (r : Text) (p : Position)
    → test c ≡ true
    → Advances (c ∷ r) p (read_while test sb (c ∷ r) p).1
unfolding read_while
read_while-Advances test sb c r p h =
    rw h (step-Advances c r p (read_while-Reaches test (sb ++ c ∷ []) r (move p (head_or_zero r))))

read_decimals-Reaches :
    (sb r : Text) (p : Position) → Reaches r p (read_decimals (sb, record { rest = r; at = p })).1
unfolding read_decimals read_digits
read_decimals-Reaches sb [] p = Reaches-refl [] p
read_decimals-Reaches sb (c ∷ r) p = ground (
  arith,
  Reaches-refl (c ∷ r) p,
  step-Reaches c r p (read_while-Reaches is_digit (sb ++ b'.' ∷ []) r (move p (head_or_zero r))),
)

read_if-Reaches :
    (test : ℕ → Bool) (sb r : Text) (p : Position)
    → test 0 ≡ false
    → Reaches r p (read_if test (sb, record { rest = r; at = p })).1
unfolding read_if
read_if-Reaches test sb [] p h = rw h (Reaches-refl [] p)
read_if-Reaches test sb (c ∷ r) p h = ground (arith, Reaches-refl (c ∷ r) p, arrive-Reaches c r p)

read_exponent-Reaches :
    (sb r : Text) (p : Position) → Reaches r p (read_exponent (sb, record { rest = r; at = p })).1
unfolding read_exponent read_digits
read_exponent-Reaches sb [] p = Reaches-refl [] p
read_exponent-Reaches sb (c ∷ r) p =
    let q = move p (head_or_zero r) in
    let sign : ℕ → Bool = λ d. d == b'+' || d == b'-' in
    let (sb', l) = read_if sign (sb ++ c ∷ [], record { rest = r; at = q }) in
    let signed : Reaches r q l = read_if-Reaches sign (sb ++ c ∷ []) r q refl in
    let digits = read_while-Reaches is_digit sb' l.rest l.at in
    ground (arith, Reaches-refl (c ∷ r) p, step-Reaches c r p (Reaches-trans l signed digits))

read_number-Advances :
    (c : ℕ) (r : Text) (p : Position)
    → is_digit c ≡ true
    → Advances (c ∷ r) p (read_number (record { rest = c ∷ r; at = p })).1
unfolding read_number
read_number-Advances c r p h =
    let (sb, l) = read_digits ([], record { rest = c ∷ r; at = p }) in
    let (sb', l') = read_decimals (sb, l) in
    let decimals : Reaches l.rest l.at l' = read_decimals-Reaches sb l.rest l.at in
    let exponent : Reaches l'.rest l'.at (read_exponent (sb', l')).1 =
      read_exponent-Reaches sb' l'.rest l'.at in
    Advances-trans l (unfold read_digits in read_while-Advances is_digit [] c r p h)
      (Reaches-trans l' decimals exponent)

read_identifier-Advances :
    (c : ℕ) (r : Text) (p : Position)
    → is_ident_start c ≡ true
    → Advances (c ∷ r) p (read_identifier (record { rest = c ∷ r; at = p })).1
unfolding read_identifier
read_identifier-Advances c r p h =
    read_while-Advances is_ident_char [] c r p (unfold is_ident_char in ground arith)

-- The cases of the switch that read a literal, and its default.
pub scan_literal-Advances :
    (c : ℕ) (r : Text) (p : Position)
    → Advances (c ∷ r) p (scan_literal c (record { rest = c ∷ r; at = p })).1
unfolding scan_literal
scan_literal-Advances c r p = ground (
  arith,
  read_string-Advances c r p,
  read_quoted_identifier-Advances c r p,
  read_dollar_quoted-Advances c r p,
  read_number-Advances c r p,
  read_identifier-Advances c r p,
  step-Advances c r p (Reaches-refl r _),
)
