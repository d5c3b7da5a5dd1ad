-- ===== src/Pgtranslate/Lexer/Quotes.antt =====
-- Texts between quotes: `readString` and `readQuotedIdentifier` of internal/pgtranslate/token.go.
use sblite.Prelude.{
  ap, suc, ℕ, Text, head_or_zero, ◌==◌, ◌≡◌, ◌≢◌, refl, some, arith, [], ◌∷◌, ◌++◌, Option, All,
  append_assoc, append-nil, if◌then◌else◌, none,
}
use native.Mathlib.Decide.{ℕ_discrete}
use sblite.Pgtranslate.Token.{Position}
use sblite.Pgtranslate.Lexer.Scan.{next_token, scan_at, single, scan_operator, scan_literal}
use sblite.Pgtranslate.Token.{TokenType, token_string, token_qident}
use sblite.Pgtranslate.Lexer.Literals.{quoted_token, read_string, read_quoted_identifier}
use sblite.Pgtranslate.Lexer.State.{skip_spaces, skip_whitespace, Lexer, move, arrive, read_char}
use sblite.Pgtranslate.Lexer.Literals.{quoted_body}

-- strings.ReplaceAll(s, q, q + q) for a single byte `q`
unfoldable pub double_byte : ℕ → Text → Text
double_byte q [] = []
double_byte q (c ∷ s) = if c == q then q ∷ q ∷ double_byte q s else c ∷ double_byte q s

double_byte_self : (q : ℕ) (s : Text) → double_byte q (q ∷ s) ≡ q ∷ q ∷ double_byte q s
unfolding double_byte
double_byte_self q s = ground arith

double_byte_ne : (q c : ℕ) (s : Text) → c ≢ q → double_byte q (c ∷ s) ≡ c ∷ double_byte q s
unfolding double_byte
double_byte_ne q c s h = ground arith

module _ (q : ℕ) (sb : Text) where
  quoted_body_char :
      (c : ℕ) (s : Text) (p : Position)
      → c ≢ 0
      → c ≢ q
      → quoted_body q sb (c ∷ s) p ≡ quoted_body q (sb ++ c ∷ []) s (move p (head_or_zero s))
  unfolding quoted_body
  quoted_body_char c [] p h k = ground arith
  quoted_body_char c (d ∷ s) p h k = ground arith

  quoted_body_doubled :
      (s : Text) (p : Position)
      → q ≢ 0
      → quoted_body q sb (q ∷ q ∷ s) p
        ≡ quoted_body q (sb ++ q ∷ []) s (read_char (arrive (q ∷ s) p)).at
  unfolding quoted_body
  quoted_body_doubled s p h = ground arith

  quoted_body_close :
      (s : Text) (p : Position)
      → q ≢ 0
      → head_or_zero s ≢ q
      → quoted_body q sb (q ∷ s) p ≡ (some sb, arrive s p)
  unfolding quoted_body
  quoted_body_close [] p h k = ground arith
  quoted_body_close (d ∷ s) p h k = ground arith

-- What the loop reads from a doubled text, and where it stops.
record ReadsBack (x : Option Text × Lexer) (v rest : Text) : Type 0 where
  text : x.0 ≡ some v
  left : x.1.rest ≡ rest

quoted_body-double_byte :
    (q : ℕ) (sb v rest : Text) (p : Position)
    → q ≢ 0
    → head_or_zero rest ≢ q
    → All (λ c. c ≢ 0) v
    → ReadsBack (quoted_body q sb (double_byte q v ++ (q ∷ rest)) p) (sb ++ v) rest
quoted_body-double_byte q sb [] rest p h k _ =
    unfold double_byte in
    rw (quoted_body_close q sb rest p h k) (record { text = rw append-nil; left = refl })
quoted_body-double_byte q sb (c ∷ v) rest p h k (hc, hv) = elim (ℕ_discrete c q) [
  | yes same ↦
      let q' = (read_char (arrive (q ∷ (double_byte q v ++ (q ∷ rest))) p)).at in
      let rest_read = quoted_body-double_byte q (sb ++ q ∷ []) v rest q' h k hv in
      rw (same, double_byte_self q v, quoted_body_doubled q sb (double_byte q v ++ (q ∷ rest)) p h)
        (rw append_assoc at rest_read)
  | no other ↦
      let s = double_byte q v ++ (q ∷ rest) in
      let rest_read =
        quoted_body-double_byte q (sb ++ c ∷ []) v rest (move p (head_or_zero s)) h k hv in
      rw (double_byte_ne q c v other, quoted_body_char q sb c s p hc other)
        (rw append_assoc at rest_read)
]

quoted_token-some :
    (t : TokenType) (q : ℕ) (m : Text) (pos : Position) (x : Option Text × Lexer) (v : Text)
    → x.0 ≡ some v
    → quoted_token t q m pos x
      ≡ (record { type = t; value = v; pos = pos; literal = q ∷ (v ++ q ∷ []) }, x.1)
unfolding quoted_token
quoted_token-some t q m pos (none, l) v h = cc
quoted_token-some t q m pos (some w, l) v h = cc

-- `s` between quotes `q`, with the quotes inside doubled, in front of `rest`.
abbrev pub quoted : ℕ → Text → Text → Text
quoted q s rest = q ∷ (double_byte q s ++ (q ∷ rest))

-- The next token is `t` with the value `v` and the text between quotes `q` as its literal, it starts
-- where the lexer stands, and `rest` is left.
pub record ReadsToken (fuel : ℕ) (l : Lexer) (t : TokenType) (q : ℕ) (v rest : Text) : Type 0 where
  pub after : Lexer
  pub returns :
      next_token fuel l
      ≡ some (record { type = t; value = v; pos = l.at; literal = q ∷ (v ++ q ∷ []) }, after)
  pub left : after.rest ≡ rest

-- A text without a byte 0, between single quotes with each single quote doubled, is one string token
-- with that text as its value, if no further single quote follows.
pub next_token-quoted_string :
    (fuel : ℕ) (s rest : Text) (p : Position)
    → head_or_zero rest ≢ b'\''
    → All (λ c. c ≢ 0) s
    → ReadsToken
        (suc fuel)
        (record { rest = quoted b'\'' s rest; at = p })
        token_string
        b'\''
        s
        rest
unfolding next_token skip_whitespace skip_spaces scan_at single scan_operator scan_literal
    read_string
next_token-quoted_string fuel s rest p h k =
    let after_quote = move p (head_or_zero (double_byte b'\'' s ++ (b'\'' ∷ rest))) in
    let body = quoted_body b'\'' [] (double_byte b'\'' s ++ (b'\'' ∷ rest)) after_quote in
    let read = quoted_body-double_byte b'\'' [] s rest after_quote (omega arith) h k in
    record {
      after = body.1;
      returns = ap some (quoted_token-some token_string b'\'' _ p body s read.text);
      left = read.left;
    }

-- A text without a byte 0, between double quotes with each double quote doubled, is one quoted
-- identifier with that text as its value, if no further double quote follows.
pub next_token-quoted_identifier :
    (fuel : ℕ) (s rest : Text) (p : Position)
    → head_or_zero rest ≢ b'"'
    → All (λ c. c ≢ 0) s
    → ReadsToken (suc fuel) (record { rest = quoted b'"' s rest; at = p }) token_qident b'"' s rest
unfolding next_token skip_whitespace skip_spaces scan_at single scan_operator scan_literal
    read_quoted_identifier
next_token-quoted_identifier fuel s rest p h k =
    let after_quote = move p (head_or_zero (double_byte b'"' s ++ (b'"' ∷ rest))) in
    let body = quoted_body b'"' [] (double_byte b'"' s ++ (b'"' ∷ rest)) after_quote in
    let read = quoted_body-double_byte b'"' [] s rest after_quote (omega arith) h k in
    record {
      after = body.1;
      returns = ap some (quoted_token-some token_qident b'"' _ p body s read.text);
      left = read.left;
    }
