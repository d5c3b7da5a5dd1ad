-- ===== src/Pgtranslate/Lexer/Scan.antt =====
-- `NextToken` and `Tokenize` of internal/pgtranslate/token.go.
use sblite.Prelude.{
  ℕ, zero, suc, ◌+◌, ◌/◌, ◌%◌, Text, codes, Option, none, some, List, [], ◌∷◌, ◌&&◌, if◌then◌else◌,
  ◌==◌, ltb, length, tail, head_or_zero, ◌>>=◌,
}
use sblite.Pgtranslate.Token.{
  TokenType, Token, ends_input, token_eof, token_plus, token_minus, token_star, token_slash,
  token_percent, token_caret, token_eq, token_ne, token_lt, token_le, token_gt, token_ge,
  token_concat, token_cast, token_json_arrow, token_json_arrow2, token_regex_match,
  token_regex_match_ci, token_regex_not_match, token_regex_not_match_ci, token_lparen, token_rparen,
  token_lbracket, token_rbracket, token_comma, token_semicolon, token_dot, token_colon,
}
use sblite.Pgtranslate.Lexer.State.{
  Lexer, Scan, read_char, token, error_token, skip_whitespace, skip_line_comment, new_lexer,
  is_digit, is_ident_start,
}
use sblite.Pgtranslate.Lexer.Literals.{
  read_string, read_quoted_identifier, read_dollar_quoted, read_number, read_identifier,
}

-- The cases of the switch that read one character and return a token with it.
unfoldable pub single : ℕ → Option TokenType
single c =
    if c == b'+'
    then some token_plus
    else if c == b'*'
    then some token_star
    else if c == b'/'
    then some token_slash
    else if c == b'%'
    then some token_percent
    else if c == b'^'
    then some token_caret
    else if c == b'('
    then some token_lparen
    else if c == b')'
    then some token_rparen
    else if c == b'['
    then some token_lbracket
    else if c == b']'
    then some token_rbracket
    else if c == b','
    then some token_comma
    else if c == b';'
    then some token_semicolon
    else if c == b'.'
    then some token_dot
    else if c == b'='
    then some token_eq
    else none

-- Tokens of one, two and three characters; the lexer still stands at the first.
abbrev pub take_one : TokenType → Text → Lexer → Scan
take_one t v l = (token t v l.at, read_char l)

abbrev pub take_two : TokenType → Text → Lexer → Scan
take_two t v l = (token t v l.at, read_char (read_char l))

abbrev pub take_three : TokenType → Text → Lexer → Scan
take_three t v l = (token t v l.at, read_char (read_char (read_char l)))

-- `l.peekChar()`, and the character behind it once both are read
abbrev pub second : Lexer → ℕ
second l = head_or_zero (tail l.rest)

abbrev pub third : Lexer → ℕ
third l = head_or_zero (tail (tail l.rest))

-- `case '-'`, but for a comment, which `next_token` skips
unfoldable pub scan_minus : Lexer → Scan
scan_minus l =
    if second l == b'>'
    then if third l == b'>'
      then take_three token_json_arrow2 (codes "->>") l
      else take_two token_json_arrow (codes "->") l
    else take_one token_minus (codes "-") l

unfoldable pub scan_less : Lexer → Scan
scan_less l =
    if second l == b'>'
    then take_two token_ne (codes "<>") l
    else if second l == b'='
    then take_two token_le (codes "<=") l
    else take_one token_lt (codes "<") l

unfoldable pub scan_greater : Lexer → Scan
scan_greater l =
    if second l == b'=' then take_two token_ge (codes ">=") l else take_one token_gt (codes ">") l

unfoldable pub scan_bang : Lexer → Scan
scan_bang l =
    if second l == b'='
    then take_two token_ne (codes "!=") l
    else if second l == b'~'
    then if third l == b'*'
      then take_three token_regex_not_match_ci (codes "!~*") l
      else take_two token_regex_not_match (codes "!~") l
    else (error_token (codes "!") l.at, read_char l)

unfoldable pub scan_tilde : Lexer → Scan
scan_tilde l =
    if second l == b'*'
    then take_two token_regex_match_ci (codes "~*") l
    else take_one token_regex_match (codes "~") l

unfoldable pub scan_bar : Lexer → Scan
scan_bar l =
    if second l == b'|'
    then take_two token_concat (codes "||") l
    else (error_token (codes "|") l.at, read_char l)

unfoldable pub scan_colon : Lexer → Scan
scan_colon l =
    if second l == b':'
    then take_two token_cast (codes "::") l
    else take_one token_colon (codes ":") l

-- `string(ch)` at a byte: the UTF-8 encoding of that code point
unfoldable pub string_of_byte : ℕ → Text
string_of_byte c = if ltb c 128 then c ∷ [] else (192 + c / 64) ∷ (128 + c % 64) ∷ []

-- The cases for the operators of several characters.
unfoldable pub scan_operator : ℕ → Lexer → Option Scan
scan_operator c l =
    if c == b'-'
    then some (scan_minus l)
    else if c == b'<'
    then some (scan_less l)
    else if c == b'>'
    then some (scan_greater l)
    else if c == b'!'
    then some (scan_bang l)
    else if c == b'~'
    then some (scan_tilde l)
    else if c == b'|'
    then some (scan_bar l)
    else if c == b':'
    then some (scan_colon l)
    else none

-- The remaining cases, `default` among them.
unfoldable pub scan_literal : ℕ → Lexer → Scan
scan_literal c l =
    if c == b'\''
    then read_string l
    else if c == b'"'
    then read_quoted_identifier l
    else if c == b'$'
    then read_dollar_quoted l
    else if is_digit c
    then read_number l
    else if is_ident_start c
    then read_identifier l
    else (error_token (string_of_byte c) l.at, read_char l)

-- The switch on `l.ch`.
unfoldable pub scan_at : ℕ → Lexer → Scan
scan_at c l = if c == 0 then (token token_eof [] l.at, l) else elim (single c) [
  | some t ↦ take_one t (c ∷ []) l
  | none ↦ elim (scan_operator c l) [ some s ↦ s | none ↦ scan_literal c l ]
]

abbrev pub scan : Lexer → Scan
scan l = scan_at (head_or_zero l.rest) l

-- `NextToken`. After a comment to the end of the line it starts again. `none`: the fuel ran out.
unfoldable pub next_token : ℕ → Lexer → Option Scan
next_token zero l = none
next_token (suc fuel) l = do
  s ← skip_whitespace (suc (length l.rest)) l
  let again = next_token fuel (skip_line_comment s.rest s.at)
  if head_or_zero s.rest == b'-' && second s == b'-' then again else some (scan s)

-- The loop of `Tokenize`: it ends behind the first end of input or error.
unfoldable pub tokenize_from : ℕ → Lexer → Option (List Token)
unfolding ends_input
tokenize_from zero l = none
tokenize_from (suc fuel) l = do
  (t, l') ← next_token (suc (length l.rest)) l
  let more = tokenize_from fuel l'
  if ends_input t.type then some (t ∷ []) else (more >>= λ ts. some (t ∷ ts))

-- `NewLexer(input).Tokenize()`
unfoldable pub tokenize : Text → Option (List Token)
unfolding tokenize_from new_lexer
tokenize input = tokenize_from (suc (length input)) (new_lexer input)
