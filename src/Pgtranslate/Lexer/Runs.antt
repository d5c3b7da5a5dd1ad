-- ===== src/Pgtranslate/Lexer/Runs.antt =====
-- The tokens of a whole input: `Tokenize` of internal/pgtranslate/token.go.
use sblite.Prelude.{
  ℕ, zero, suc, Text, length, ◌≡◌, ◌+◌, ◌≤◌, ◌<◌, refl, some, true, false, arith, [], ◌∷◌, List,
  Bool-cases, inl, inr,
}
use sblite.Pgtranslate.Token.{Token, ends_input}
use sblite.Pgtranslate.Lexer.State.{Lexer, new_lexer}
use sblite.Pgtranslate.Lexer.Total.{next_token_total}
use sblite.Pgtranslate.Lexer.Scan.{tokenize_from, tokenize}

-- The tokens of one run over an input of `size` bytes: their offsets increase from `lo` on and stay
-- within the input, the last token ends the input, and no other does.
pub data TokenRun (size : ℕ) : ℕ → List Token → Type 0 where
  last :
      {lo : ℕ} {t : Token}
      → lo ≤ t.pos.offset
      → t.pos.offset ≤ size
      → ends_input t.type ≡ true
      → TokenRun size lo (t ∷ [])
  more :
      {lo hi : ℕ} {t : Token} {ts : List Token}
      → lo ≤ t.pos.offset
      → t.pos.offset < hi
      → ends_input t.type ≡ false
      → TokenRun size hi ts
      → TokenRun size lo (t ∷ ts)

-- The loop of `Tokenize`, from a lexer somewhere in an input of `size` bytes.
pub tokenize_from_total :
    (fuel : ℕ) (l : Lexer) (size : ℕ)
    → length l.rest < fuel
    → l.at.offset + length l.rest ≡ size
    → (ts : List Token) × (tokenize_from fuel l ≡ some ts) × TokenRun size l.at.offset ts
unfolding tokenize_from
tokenize_from_total zero l size h k = elim h [ ]
tokenize_from_total (suc fuel) l size h k =
    let (s, e, emits) = next_token_total (suc (length l.rest)) l (omega arith) in
    elim (Bool-cases (ends_input s.0.type)) [
      | inl final ↦ (
        s.0 ∷ [],
        rw (e, final),
        last emits.from (omega (arith, emits.bounded, emits.reaches.total)) final,
      )
      | inr goes_on ↦
          let (ts, rest, run) =
            tokenize_from_total fuel s.1 size (omega (arith, emits.strict goes_on))
              (omega (arith, emits.reaches.total)) in
          (s.0 ∷ ts, rw (e, goes_on, rest), more emits.from (emits.before goes_on) goes_on run)
    ]

offset-new_lexer : (input : Text) → (new_lexer input).at.offset ≡ 0
unfolding new_lexer
offset-new_lexer input = ground arith

rest-new_lexer : (input : Text) → (new_lexer input).rest ≡ input
unfolding new_lexer
rest-new_lexer input = refl

-- For every input `Tokenize` returns, and its tokens are a run over that input: their offsets increase
-- and stay within it, the last token is its end or an error, and no other token is.
pub tokenize_total :
    (input : Text) → (ts : List Token) × (tokenize input ≡ some ts) × TokenRun (length input) 0 ts
unfolding tokenize
tokenize_total input =
    let r = rest-new_lexer input in
    let o = offset-new_lexer input in
    let (ts, e, run) =
      tokenize_from_total (suc (length input)) (new_lexer input) (length input) (rw r (omega arith))
        (rw (o, r) (omega arith)) in
    (ts, e, rw o at run)
