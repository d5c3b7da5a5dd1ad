-- ===== src/Pgtranslate/Lexer/Tests.antt =====
-- Runs of the lexer on small inputs, and instances of the theorems.
use sblite.Prelude.{
  codes, Option, none, some, List, [], ◌∷◌, ◌≡◌, refl, map, str_eq, arith, head_or_zero, false,
  ◌==◌, ◌&&◌, tail,
}
use sblite.Pgtranslate.Token.{
  Token, Position, TokenType, token_select, token_string, token_qident, keywords, find_keyword,
  token_ident, token_json_arrow2, token_from, token_number, token_cast, token_eof,
}
use sblite.Pgtranslate.Lexer.Scan.{
  tokenize, next_token, scan_at, single, scan_operator, scan_literal, scan_minus, scan_colon,
}
use sblite.Pgtranslate.Lexer.Quotes.{
  ReadsToken, quoted, next_token-quoted_string, next_token-quoted_identifier,
}
use sblite.Pgtranslate.Lexer.Words.{ReadsWord, next_token-word, ident_type-keywords}
use sblite.Pgtranslate.Lexer.Literals.{
  ident_type, read_string, read_identifier, read_number, quoted_body,
}
use sblite.Pgtranslate.Lexer.State.{
  Lexer, skip_whitespace, skip_spaces, is_ident_start, skip_line_comment, is_ident_char,
  block_comment_body, is_digit, to_upper, move, is_space,
}
use sblite.Pgtranslate.Lexer.Runs.{TokenRun, tokenize_total}
use sblite.Pgtranslate.Lexer.Comments.{next_token-line_comment}
use sblite.Pgtranslate.Lexer.Skips.{skip_whitespace_clears}
use sblite.Pgtranslate.Lexer.Numbers.{ReadsNumber, next_token-whole_number}

abbrev types : Option (List Token) → List TokenType
types none = []
types (some ts) = map (λ t. t.type) ts

tokenize_query :
    types (tokenize (codes "Select a->>'it''s' /* x */ from t -- c\n 1.5e3::"))
    ≡ token_select ∷ token_ident ∷ token_json_arrow2 ∷ token_string ∷ token_from ∷ token_ident
      ∷ token_number ∷ token_cast ∷ token_eof ∷ []
unfolding tokenize next_token skip_whitespace skip_spaces skip_line_comment block_comment_body
    scan_at single scan_operator scan_literal scan_minus scan_colon read_string read_identifier
    read_number quoted_body move find_keyword keywords str_eq to_upper
tokenize_query = refl

abbrev start : Position
start = record { offset = 0; line = 1; column = 1 }

tokenize_total_example :
    (ts : List Token) × (tokenize (codes "select 'a' -- x") ≡ some ts) × TokenRun 15 0 ts
tokenize_total_example = tokenize_total (codes "select 'a' -- x")

next_token-quoted_string_example :
    ReadsToken 3
      (record { rest = quoted b'\'' (codes "it's") (codes ";"); at = start })
      token_string
      b'\''
      (codes "it's")
      (codes ";")
next_token-quoted_string_example =
    next_token-quoted_string 2 (codes "it's") (codes ";") start (omega arith)
      (omega arith, (omega arith, (omega arith, (omega arith, tt))))

next_token-quoted_identifier_example :
    ReadsToken 3
      (record { rest = quoted b'"' (codes "a\"b") (codes "."); at = start })
      token_qident
      b'"'
      (codes "a\"b")
      (codes ".")
next_token-quoted_identifier_example =
    next_token-quoted_identifier 2 (codes "a\"b") (codes ".") start (omega arith)
      (omega arith, (omega arith, (omega arith, tt)))

next_token-word_example :
    ReadsWord 3 (record { rest = codes "from2 t"; at = start }) (codes "from2") (codes " t")
next_token-word_example =
    next_token-word 2 b'f' (codes "rom2") (codes " t") start (unfold is_ident_start in refl)
      (unfold is_ident_char is_ident_start is_digit in (refl, (refl, (refl, (refl, tt)))))
      (unfold is_ident_char is_ident_start is_digit in refl)

ident_type-keywords_example : ident_type (codes "SeLect") ≡ token_select
ident_type-keywords_example =
    ident_type-keywords 0 (codes "SELECT") token_select (codes "SeLect") (unfold keywords in refl)
      (unfold to_upper in refl)

next_token-line_comment_example :
    (after : Lexer) × (next_token 3 (record { rest = codes "--hi\nx"; at = start })
      ≡ next_token 2 after)
    × (after.rest ≡ codes "x")
next_token-line_comment_example =
    next_token-line_comment 2 (codes "hi") (codes "x") start
      ((omega arith, omega arith), ((omega arith, omega arith), tt))

skip_whitespace_clears_example :
    (s : Lexer) × (skip_whitespace 9 (record { rest = codes " /* */ x"; at = start }) ≡ some s)
    × (is_space (head_or_zero s.rest) ≡ false)
    × ((head_or_zero s.rest == b'/' && head_or_zero (tail s.rest) == b'*') ≡ false)
skip_whitespace_clears_example =
    skip_whitespace_clears (record { rest = codes " /* */ x"; at = start })

next_token-whole_number_example :
    ReadsNumber 3 (record { rest = codes "42)"; at = start }) (codes "42") (codes ")")
next_token-whole_number_example =
    next_token-whole_number 2 b'4' (codes "2") (codes ")") start (unfold is_digit in refl)
      (unfold is_digit in (refl, tt))
      (unfold is_digit in record { no_digit = refl; no_dot = refl; no_e = refl; no_big_e = refl })
