-- ===== src/Pgtranslate/Lexer/Words.antt =====
-- Identifiers and keywords: what is read as one word, and as which type of token.
use sblite.Prelude.{
  ℕ, suc, Text, head_or_zero, ◌==◌, ◌≡◌, refl, some, none, true, false, arith, [], ◌∷◌, ◌++◌, List,
  All, All-map, append_assoc, append-nil, map, str_eq, str_eq_refl, str_eq_iff, Bool, get_elem?,
  All-get_elem?,
}
use sblite.Pgtranslate.Token.{Position, TokenType, find_keyword, keywords}
use sblite.Pgtranslate.Lexer.State.{
  Lexer, move, token, skip_spaces, skip_whitespace, is_space, is_ident_start, is_ident_char,
  to_upper, is_digit,
}
use sblite.Pgtranslate.Lexer.Literals.{read_while, read_identifier, ident_token, ident_type}
use sblite.Pgtranslate.Lexer.Scan.{next_token, scan_at, single, scan_operator, scan_literal}

pub record ReadsWhile (x : Text × Lexer) (v rest : Text) : Type 0 where
  pub text : x.0 ≡ v
  pub left : x.1.rest ≡ rest

module _ (test : ℕ → Bool) (rest : Text) (stop : test (head_or_zero rest) ≡ false) where
  read_while_stop :
      (sb : Text) (r : Text) (p : Position)
      → test (head_or_zero r) ≡ false
      → read_while test sb r p ≡ (sb, record { rest = r; at = p })
  unfolding read_while
  read_while_stop sb [] p h = refl
  read_while_stop sb (c ∷ r) p h = rw h

  read_while_go :
      (sb : Text) (c : ℕ) (r : Text) (p : Position)
      → test c ≡ true
      → read_while test sb (c ∷ r) p ≡ read_while test (sb ++ c ∷ []) r (move p (head_or_zero r))
  unfolding read_while
  read_while_go sb c r p h = rw h

  pub read_while-append :
      (sb v : Text) (p : Position)
      → All (λ c. test c ≡ true) v
      → ReadsWhile (read_while test sb (v ++ rest) p) (sb ++ v) rest
  read_while-append sb [] p _ =
      rw (read_while_stop sb rest p stop) (record { text = rw append-nil; left = refl })
  read_while-append sb (c ∷ v) p (h, hs) =
      let more = read_while-append (sb ++ c ∷ []) v (move p (head_or_zero (v ++ rest))) hs in
      rw (read_while_go sb c (v ++ rest) p h) (rw append_assoc at more)

-- No character that starts an identifier is one of the other cases of the switch.
module _ (c : ℕ) (start : is_ident_start c ≡ true) where
  start-ne-space : is_space c ≡ false
  unfolding is_space is_ident_start
  start-ne-space = ground arith

  single-start : single c ≡ none
  unfolding single is_ident_start
  single-start = ground arith

  scan_operator-start : (l : Lexer) → scan_operator c l ≡ none
  unfolding scan_operator is_ident_start
  scan_operator-start l = ground arith

  scan_literal-start : (l : Lexer) → scan_literal c l ≡ read_identifier l
  unfolding scan_literal is_ident_start is_digit
  scan_literal-start l = ground arith

  scan_at-start : (l : Lexer) → scan_at c l ≡ read_identifier l
  unfolding scan_at
  scan_at-start l =
      let nz : (c == 0) ≡ false = unfold is_ident_start in ground arith in
      rw (nz, single-start, scan_operator-start l) (scan_literal-start l)

  skip_whitespace-start :
      (fuel : ℕ) (s : Text) (p : Position)
      → skip_whitespace (suc fuel) (record { rest = c ∷ s; at = p })
        ≡ some (record { rest = c ∷ s; at = p })
  unfolding skip_whitespace skip_spaces
  skip_whitespace-start fuel s p =
      let slash : (c == b'/') ≡ false = unfold is_ident_start in ground arith in
      rw (start-ne-space, slash)

-- The next token is the word `w`, it starts where the lexer stands, and `rest` is left.
pub record ReadsWord (fuel : ℕ) (l : Lexer) (w rest : Text) : Type 0 where
  pub after : Lexer
  pub returns : next_token fuel l ≡ some (token (ident_type w) w l.at, after)
  pub left : after.rest ≡ rest

-- A word, which starts with a letter or `_` and goes on with such and digits, is read as a whole, if
-- no further such character follows. Its type is that of the keyword table.
pub next_token-word :
    (fuel c : ℕ) (s rest : Text) (p : Position)
    → is_ident_start c ≡ true
    → All (λ d. is_ident_char d ≡ true) s
    → is_ident_char (head_or_zero rest) ≡ false
    → ReadsWord (suc fuel) (record { rest = c ∷ (s ++ rest); at = p }) (c ∷ s) rest
unfolding next_token
next_token-word fuel c s rest p h hs stop =
    let l : Lexer = record { rest = c ∷ (s ++ rest); at = p } in
    let first : is_ident_char c ≡ true = unfold is_ident_char in rw h in
    let read = read_while-append is_ident_char rest stop [] (c ∷ s) p (first, hs) in
    let dash : (c == b'-') ≡ false = unfold is_ident_start in ground arith in
    record {
      after = (read_while is_ident_char [] (c ∷ (s ++ rest)) p).1;
      returns =
          rw (skip_whitespace-start c h _ (s ++ rest) p, dash, scan_at-start c h l)
            (unfold read_identifier ident_token in rw read.text);
      left = read.left;
    }

-- No key of a table stands in it twice.
distinct_keys : List (Text × TokenType) → Bool
distinct_keys [] = true
distinct_keys ((k, t) ∷ m) = elim (find_keyword k m) [ none ↦ distinct_keys m | some _ ↦ false ]

find_keyword_self :
    (k : Text) (t : TokenType) (m : List (Text × TokenType)) → find_keyword k ((k, t) ∷ m) ≡ some t
unfolding find_keyword
find_keyword_self k t m = rw str_eq_refl

find_keyword_behind :
    (k : Text) (t : TokenType) (m : List (Text × TokenType)) (e : Text × TokenType)
    → find_keyword k m ≡ none
    → find_keyword e.0 m ≡ some e.1
    → find_keyword e.0 ((k, t) ∷ m) ≡ some e.1
unfolding find_keyword
find_keyword_behind k t m e h g = ground (arith, str_eq_iff k e.0)

abbrev IsFound : List (Text × TokenType) → Text × TokenType → Type 0
IsFound m e = find_keyword e.0 m ≡ some e.1

find_keyword_distinct : (m : List (Text × TokenType)) → distinct_keys m ≡ true → All (IsFound m) m
find_keyword_distinct [] h = tt
find_keyword_distinct ((k, t) ∷ m) h =
    let split : (find_keyword k m ≡ none) × (distinct_keys m ≡ true) =
      unfold distinct_keys in ground arith in
    (
      find_keyword_self k t m,
      All-map (IsFound m) (IsFound ((k, t) ∷ m)) m (λ e. find_keyword_behind k t m e split.0)
          (find_keyword_distinct m split.1),
    )

keywords_distinct : distinct_keys keywords ≡ true
unfolding distinct_keys find_keyword keywords str_eq
keywords_distinct = refl

ident_type_found :
    (s k : Text) (t : TokenType)
    → map to_upper s ≡ k
    → find_keyword k keywords ≡ some t
    → ident_type s ≡ t
unfolding ident_type
ident_type_found s k t h found = ground arith

-- Each entry of the keyword table gives the type of every spelling of its keyword, in any mixture of
-- upper and lower case.
pub ident_type-keywords :
    (n : ℕ) (k : Text) (t : TokenType) (s : Text)
    → get_elem? keywords n ≡ some (k, t)
    → map to_upper s ≡ k
    → ident_type s ≡ t
ident_type-keywords n k t s entry h = ident_type_found s k t h (
    All-get_elem? (IsFound keywords) keywords n (k, t)
      (find_keyword_distinct keywords keywords_distinct) entry)
