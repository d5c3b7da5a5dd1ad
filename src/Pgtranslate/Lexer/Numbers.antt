-- ===== src/Pgtranslate/Lexer/Numbers.antt =====
-- Whole numbers: `readNumber` of internal/pgtranslate/token.go.
use sblite.Prelude.{
  ℕ, suc, Text, head_or_zero, ◌==◌, ◌≡◌, refl, some, none, true, false, arith, [], ◌∷◌, ◌++◌, All,
}
use sblite.Pgtranslate.Token.{Position, token_number}
use sblite.Pgtranslate.Lexer.State.{Lexer, is_digit, is_space, skip_whitespace, skip_spaces}
use sblite.Pgtranslate.Lexer.Literals.{
  read_while, read_number, read_exponent, read_decimals, read_digits, number_token,
}
use sblite.Pgtranslate.Lexer.Scan.{next_token, scan_at, single, scan_operator, scan_literal}
use sblite.Pgtranslate.Lexer.Words.{read_while-append}

-- No digit is one of the other cases of the switch.
module _ (c : ℕ) (digit : is_digit c ≡ true) where
  single-digit : single c ≡ none
  unfolding single is_digit
  single-digit = ground arith

  scan_operator-digit : (l : Lexer) → scan_operator c l ≡ none
  unfolding scan_operator is_digit
  scan_operator-digit l = ground arith

  scan_literal-digit : (l : Lexer) → scan_literal c l ≡ read_number l
  unfolding scan_literal is_digit
  scan_literal-digit l = ground arith

  scan_at-digit : (l : Lexer) → scan_at c l ≡ read_number l
  unfolding scan_at
  scan_at-digit l =
      let nz : (c == 0) ≡ false = unfold is_digit in ground arith in
      rw (nz, single-digit, scan_operator-digit l) (scan_literal-digit l)

  digit-ne-space : is_space c ≡ false
  unfolding is_space is_digit
  digit-ne-space = ground arith

  skip_whitespace-digit :
      (fuel : ℕ) (s : Text) (p : Position)
      → skip_whitespace (suc fuel) (record { rest = c ∷ s; at = p })
        ≡ some (record { rest = c ∷ s; at = p })
  unfolding skip_whitespace skip_spaces
  skip_whitespace-digit fuel s p =
      let slash : (c == b'/') ≡ false = unfold is_digit in ground arith in
      rw (digit-ne-space, slash)

-- Behind the digits of a whole number there is no fraction and no exponent.
pub record EndsNumber (rest : Text) : Type 0 where
  pub no_digit : is_digit (head_or_zero rest) ≡ false
  pub no_dot : (head_or_zero rest == b'.') ≡ false
  pub no_e : (head_or_zero rest == b'e') ≡ false
  pub no_big_e : (head_or_zero rest == b'E') ≡ false

read_decimals_none :
    (x : Text × Lexer) → (head_or_zero x.1.rest == b'.') ≡ false → read_decimals x ≡ x
unfolding read_decimals
read_decimals_none (sb, l) h = rw h refl

read_exponent_none :
    (x : Text × Lexer)
    → (head_or_zero x.1.rest == b'e') ≡ false
    → (head_or_zero x.1.rest == b'E') ≡ false
    → read_exponent x ≡ x
unfolding read_exponent
read_exponent_none (sb, l) h k = rw (h, k) refl

read_number_whole :
    (l : Lexer) (rest : Text)
    → (read_while is_digit [] l.rest l.at).1.rest ≡ rest
    → EndsNumber rest
    → read_number l ≡ number_token l.at (read_while is_digit [] l.rest l.at)
unfolding read_number read_digits
read_number_whole l rest e ends =
    let x = read_while is_digit [] l.rest l.at in
    rw
      (
        read_decimals_none x (rw e ends.no_dot),
        read_exponent_none x (rw e ends.no_e) (rw e ends.no_big_e),
      )
      refl

-- The next token is the number `v`, it starts where the lexer stands, and `rest` is left.
pub record ReadsNumber (fuel : ℕ) (l : Lexer) (v rest : Text) : Type 0 where
  pub after : Lexer
  pub returns :
      next_token fuel l
      ≡ some (record { type = token_number; value = v; pos = l.at; literal = v }, after)
  pub left : after.rest ≡ rest

-- A sequence of digits is read as one number with these digits, if no further digit, no dot and no
-- letter e, in either case, follows.
pub next_token-whole_number :
    (fuel c : ℕ) (s rest : Text) (p : Position)
    → is_digit c ≡ true
    → All (λ d. is_digit d ≡ true) s
    → EndsNumber rest
    → ReadsNumber (suc fuel) (record { rest = c ∷ (s ++ rest); at = p }) (c ∷ s) rest
unfolding next_token
next_token-whole_number fuel c s rest p h hs ends =
    let l : Lexer = record { rest = c ∷ (s ++ rest); at = p } in
    let read = read_while-append is_digit rest ends.no_digit [] (c ∷ s) p (h, hs) in
    let dash : (c == b'-') ≡ false = unfold is_digit in ground arith in
    record {
      after = (read_while is_digit [] (c ∷ (s ++ rest)) p).1;
      returns =
          rw
            (
              skip_whitespace-digit c h _ (s ++ rest) p,
              dash,
              scan_at-digit c h l,
              read_number_whole l rest read.left ends,
            )
            (unfold number_token in rw read.text);
      left = read.left;
    }
