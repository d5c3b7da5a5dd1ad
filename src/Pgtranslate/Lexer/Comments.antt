-- ===== src/Pgtranslate/Lexer/Comments.antt =====
-- Comments to the end of the line: `skipLineComment` of internal/pgtranslate/token.go.
use sblite.Prelude.{ℕ, suc, Text, ◌++◌, [], ◌∷◌, ◌≡◌, ◌≢◌, refl, arith, All, head_or_zero}
use sblite.Pgtranslate.Token.{Position}
use sblite.Pgtranslate.Lexer.State.{Lexer, move, skip_spaces, skip_whitespace, skip_line_comment}
use sblite.Pgtranslate.Lexer.Scan.{next_token}

-- Neither the end of a line nor the byte that the lexer takes for the end of the input.
abbrev pub InLine : Text → Type 0
InLine = All (λ c. (c ≢ b'\n') × (c ≢ 0))

rest-skip_line_comment :
    (v rest : Text) (p : Position)
    → InLine v
    → (skip_line_comment (v ++ (b'\n' ∷ rest)) p).rest ≡ rest
unfolding skip_line_comment
rest-skip_line_comment [] rest p _ = refl
rest-skip_line_comment (c ∷ v) rest p (h, hs) =
    ground (arith, rest-skip_line_comment v rest (move p (head_or_zero (v ++ (b'\n' ∷ rest)))) hs)

-- `--`, a body within one line and the line's end are passed over: the next token is the one that is
-- read from what follows, with one round of fuel less.
pub next_token-line_comment :
    (fuel : ℕ) (body rest : Text) (p : Position)
    → InLine body
    → (after : Lexer) × (next_token
          (suc fuel)
          (record { rest = b'-' ∷ b'-' ∷ (body ++ (b'\n' ∷ rest)); at = p })
        ≡ next_token fuel after)
      × (after.rest ≡ rest)
unfolding next_token skip_whitespace skip_spaces
next_token-line_comment fuel body rest p h =
    let inside : InLine (b'-' ∷ b'-' ∷ body) = (omega arith, (omega arith, h)) in
    (
      skip_line_comment (b'-' ∷ b'-' ∷ (body ++ (b'\n' ∷ rest))) p,
      refl,
      rest-skip_line_comment (b'-' ∷ b'-' ∷ body) rest p inside,
    )
