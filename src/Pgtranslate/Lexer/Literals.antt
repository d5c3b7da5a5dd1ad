-- ===== src/Pgtranslate/Lexer/Literals.antt =====
-- The readers of strings, quoted identifiers, dollar quotes, numbers and identifiers
-- (internal/pgtranslate/token.go). What a loop writes to its strings.Builder is `sb`.
use sblite.Prelude.{
  ℕ, zero, suc, Text, codes, has_prefix, Option, none, some, [], ◌∷◌, ◌++◌, Bool, ◌&&◌, ◌||◌,
  if◌then◌else◌, ◌==◌, map, length, tail, head_or_zero,
}
use sblite.Pgtranslate.Token.{
  TokenType, Position, keywords, find_keyword, token_ident, token_qident, token_string,
  token_number, token_dollar_str,
}
use sblite.Pgtranslate.Lexer.State.{
  Lexer, Scan, move, arrive, read_char, token, error_token, is_digit, is_ident_char, to_upper,
}

-- The loop of `readString` and `readQuotedIdentifier` behind the opening quote `q`; a doubled quote
-- stands for one. `none` in place of the text: the input ended first.
unfoldable pub quoted_body : ℕ → Text → Text → Position → Option Text × Lexer
quoted_body q sb [] p = (none, record { rest = []; at = p })
quoted_body q sb (c ∷ []) p =
    if c == 0
    then (none, record { rest = c ∷ []; at = p })
    else if c == q
    then (some sb, arrive [] p)
    else (none, arrive [] p)
quoted_body q sb (c ∷ d ∷ r) p =
    let again = quoted_body q (sb ++ q ∷ []) r (read_char (arrive (d ∷ r) p)).at in
    let more = quoted_body q (sb ++ c ∷ []) (d ∷ r) (move p d) in
    if c == 0
    then (none, record { rest = c ∷ d ∷ r; at = p })
    else if c == q
    then if d == q then again else (some sb, arrive (d ∷ r) p)
    else more

-- The token behind that loop; `pos` is the position of the opening quote.
unfoldable pub quoted_token : TokenType → ℕ → Text → Position → Option Text × Lexer → Scan
quoted_token t q message pos (none, l) = (error_token message pos, l)
quoted_token t q message pos (some v, l) =
    (record { type = t; value = v; pos = pos; literal = q ∷ (v ++ q ∷ []) }, l)

unfoldable pub read_string : Lexer → Scan
unfolding quoted_token
read_string l =
    let open_quote = read_char l in
    quoted_token token_string b'\'' (codes "unterminated string") l.at
      (quoted_body b'\'' [] open_quote.rest open_quote.at)

unfoldable pub read_quoted_identifier : Lexer → Scan
unfolding quoted_token
read_quoted_identifier l =
    let open_quote = read_char l in
    quoted_token token_qident b'"' (codes "unterminated quoted identifier") l.at
      (quoted_body b'"' [] open_quote.rest open_quote.at)

-- `for test(l.ch) { sb.WriteByte(l.ch); l.readChar() }`, for a test that 0 fails
unfoldable pub read_while : (ℕ → Bool) → Text → Text → Position → Text × Lexer
read_while test sb [] p = (sb, record { rest = []; at = p })
read_while test sb (c ∷ r) p =
    let more = read_while test (sb ++ c ∷ []) r (move p (head_or_zero r)) in
    if test c then more else (sb, record { rest = c ∷ r; at = p })

-- `for i := 0; i < n; i++ { l.readChar() }`
unfoldable pub read_chars : ℕ → Lexer → Lexer
read_chars zero l = l
read_chars (suc n) l = read_chars n (read_char l)

-- The loop of `readDollarQuoted` behind the opening tag.
unfoldable pub dollar_body : Text → Text → Text → Position → Option Text × Lexer
unfolding read_chars has_prefix
dollar_body tag sb [] p = (none, record { rest = []; at = p })
dollar_body tag sb (c ∷ r) p =
    let more = dollar_body tag (sb ++ c ∷ []) r (move p (head_or_zero r)) in
    let here : Lexer = record { rest = c ∷ r; at = p } in
    if c == 0
    then (none, here)
    else if c == b'$' && has_prefix (c ∷ r) tag
    then (some sb, read_chars (length tag) here)
    else more

unfoldable pub dollar_token : Text → Position → Option Text × Lexer → Scan
dollar_token tag pos (none, l) = (error_token (codes "unterminated dollar-quoted string") pos, l)
dollar_token tag pos (some v, l) =
    (record { type = token_dollar_str; value = v; pos = pos; literal = tag ++ (v ++ tag) }, l)

-- What follows the name in the opening tag.
unfoldable pub dollar_tagged : Position → Text × Lexer → Scan
unfolding dollar_token
dollar_tagged pos (name, l) =
    let tag = name ++ b'$' ∷ [] in
    let opened = read_char l in
    if head_or_zero l.rest == b'$'
    then dollar_token tag pos (dollar_body tag [] opened.rest opened.at)
    else (error_token (codes "invalid dollar quote") pos, l)

-- The test `l.ch != '$' && l.ch != 0 && isIdentChar(l.ch)` is `isIdentChar(l.ch)`: neither `$` nor
-- 0 is such a character.
unfoldable pub read_dollar_quoted : Lexer → Scan
unfolding dollar_tagged read_while
read_dollar_quoted l =
    let skipped = read_char l in
    dollar_tagged l.at (read_while is_ident_char (b'$' ∷ []) skipped.rest skipped.at)

-- The three parts of `readNumber`: digits, a decimal part, an exponent.
unfoldable pub read_digits : Text × Lexer → Text × Lexer
unfolding read_while is_digit
read_digits (sb, l) = read_while is_digit sb l.rest l.at

unfoldable pub read_decimals : Text × Lexer → Text × Lexer
unfolding read_digits
read_decimals (sb, l) =
    if head_or_zero l.rest == b'.' && is_digit (head_or_zero (tail l.rest))
    then read_digits (sb ++ b'.' ∷ [], read_char l)
    else (sb, l)

-- `sb.WriteByte(l.ch); l.readChar()` where the test holds
unfoldable pub read_if : (ℕ → Bool) → Text × Lexer → Text × Lexer
read_if test (sb, l) =
    let c = head_or_zero l.rest in if test c then (sb ++ c ∷ [], read_char l) else (sb, l)

unfoldable pub read_exponent : Text × Lexer → Text × Lexer
unfolding read_digits read_if
read_exponent (sb, l) =
    let c = head_or_zero l.rest in
    if c == b'e' || c == b'E'
    then read_digits (read_if (λ d. d == b'+' || d == b'-') (sb ++ c ∷ [], read_char l))
    else (sb, l)

unfoldable pub number_token : Position → Text × Lexer → Scan
number_token pos (v, l) = (record { type = token_number; value = v; pos = pos; literal = v }, l)

unfoldable pub read_number : Lexer → Scan
unfolding number_token read_exponent read_decimals read_digits
read_number l = number_token l.at (read_exponent (read_decimals (read_digits ([], l))))

-- `keywords[upper]`, or an identifier
unfoldable pub ident_type : Text → TokenType
ident_type value = elim (find_keyword (map to_upper value) keywords) [
  | some t ↦ t
  | none ↦ token_ident
]

unfoldable pub ident_token : Position → Text × Lexer → Scan
unfolding ident_type
ident_token pos (value, l) = (token (ident_type value) value pos, l)

unfoldable pub read_identifier : Lexer → Scan
unfolding ident_token read_while is_ident_char
read_identifier l = ident_token l.at (read_while is_ident_char [] l.rest l.at)
