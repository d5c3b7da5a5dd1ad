-- ===== src/Pgtranslate/Lexer/State.antt =====
-- `Lexer` of internal/pgtranslate/token.go, its reads of one character and its skips. The fields
-- `input`, `pos`, `readPos` and `ch` are represented by the unread input `rest`, which is
-- `input[pos:]`, and by the offset `pos` in `at`: `l.ch` is the first byte of `rest` and
-- `l.peekChar()` the second, each 0 past the end. The loops recur on `rest`.
mod Chars
unfoldable pub use Chars.{is_digit, is_ident_start, is_ident_char, is_space, to_upper}
use sblite.Prelude.{
  ℕ, zero, suc, ◌+◌, Text, Option, none, some, [], ◌∷◌, ◌&&◌, if◌then◌else◌, ◌==◌, tail,
  head_or_zero,
}
use sblite.Pgtranslate.Token.{TokenType, Position, Token, token_error}

pub record Lexer : Type 0 where
  pub rest : Text
  pub at : Position

-- The position after `readChar` has made `c` the current character.
unfoldable pub move : Position → ℕ → Position
move p c =
    if c == b'\n'
    then record { offset = p.offset + 1; line = p.line + 1; column = 0 }
    else record { offset = p.offset + 1; line = p.line; column = p.column + 1 }

-- The lexer after `readChar` has left `r` unread.
abbrev pub arrive : Text → Position → Lexer
arrive r p = record { rest = r; at = move p (head_or_zero r) }

abbrev pub read_char : Lexer → Lexer
read_char l = arrive (tail l.rest) l.at

-- `NewLexer`, the first `readChar` included: the offset does not grow there.
unfoldable pub new_lexer : Text → Lexer
new_lexer input = record {
  rest = input;
  at =
      if head_or_zero input == b'\n'
      then record { offset = 0; line = 2; column = 0 }
      else record { offset = 0; line = 1; column = 1 };
}

-- The first loop of `skipWhitespace`.
unfoldable pub skip_spaces : Text → Position → Lexer
unfolding is_space
skip_spaces [] p = record { rest = []; at = p }
skip_spaces (c ∷ r) p =
    let more = skip_spaces r (move p (head_or_zero r)) in
    if is_space c then more else record { rest = c ∷ r; at = p }

unfoldable pub skip_line_comment : Text → Position → Lexer
skip_line_comment [] p = record { rest = []; at = p }
skip_line_comment (c ∷ r) p =
    let more = skip_line_comment r (move p (head_or_zero r)) in
    if c == b'\n' then arrive r p else if c == 0 then record { rest = c ∷ r; at = p } else more

-- The loop of `skipBlockComment`, after the opening `/*`.
unfoldable pub block_comment_body : Text → Position → Lexer
block_comment_body [] p = record { rest = []; at = p }
block_comment_body (c ∷ r) p =
    let more = block_comment_body r (move p (head_or_zero r)) in
    if c == 0
    then record { rest = c ∷ r; at = p }
    else if c == b'*' && head_or_zero r == b'/'
    then read_char (arrive r p)
    else more

abbrev pub skip_block_comment : Lexer → Lexer
skip_block_comment l = let body = read_char (read_char l) in block_comment_body body.rest body.at

-- `skipWhitespace`: spaces, then a block comment and the rest again. `none`: the fuel ran out.
unfoldable pub skip_whitespace : ℕ → Lexer → Option Lexer
skip_whitespace zero l = none
skip_whitespace (suc fuel) l =
    let s = skip_spaces l.rest l.at in
    let more = skip_whitespace fuel (skip_block_comment s) in
    if head_or_zero s.rest == b'/' && head_or_zero (tail s.rest) == b'*' then more else some s

-- A token with the lexer behind it.
abbrev pub Scan : Type 0
Scan = Token × Lexer

abbrev pub token : TokenType → Text → Position → Token
token t v p = record { type = t; value = v; pos = p; literal = [] }

abbrev pub error_token : Text → Position → Token
error_token = token token_error
