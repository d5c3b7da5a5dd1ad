-- ===== src/Pgtranslate/Lexer/Total.antt =====
-- What one call of `NextToken` returns (internal/pgtranslate/token.go).
mod Start
use Start.{pos-scan}
use sblite.Prelude.{
  ℕ, zero, suc, Text, length, head_or_zero, tail, ◌==◌, ◌≡◌, ◌≢◌, ◌+◌, ◌≤◌, ◌<◌, refl, some, none,
  true, false, arith, [], ◌∷◌, List, ◌&&◌, Bool-cases, inl, inr, ==_iff, ap,
}
use native.Mathlib.Decide.{ℕ_discrete}
use sblite.Pgtranslate.Token.{Position, Token, token_eof, ends_input}
use sblite.Pgtranslate.Lexer.State.{Lexer, Scan, skip_line_comment, skip_whitespace, new_lexer}
use sblite.Pgtranslate.Lexer.Progress.{
  Reaches, skip_line_comment-lt, Reaches-refl, Reaches-trans, Advances, skip_line_comment-Reaches,
}
use sblite.Pgtranslate.Lexer.Skips.{skip_whitespace_total}
use sblite.Pgtranslate.Lexer.Advance.{scan-Advances}
use sblite.Pgtranslate.Lexer.Scan.{scan, scan_at, next_token, tokenize_from, tokenize, second}

-- What a call of `NextToken` on `l` returns: a token at or behind `l`, and a lexer behind the token
-- unless the token ends the input.
pub record Emits (r : Text) (p : Position) (s : Scan) : Type 0 where
  pub reaches : Reaches r p s.1
  pub from : p.offset ≤ s.0.pos.offset
  pub bounded : s.0.pos.offset ≤ s.1.at.offset
  pub before : ends_input s.0.type ≡ false → s.0.pos.offset < s.1.at.offset
  pub strict : ends_input s.0.type ≡ false → length s.1.rest < length r

Advances-Emits : (r : Text) (p : Position) (s : Scan) → s.0.pos ≡ p → Advances r p s.1 → Emits r p s
Advances-Emits r p s e h =
    let same = ap (λ (q : Position). q.offset) e in
    record {
      reaches = omega arith;
      from = omega (arith, same);
      bounded = omega (arith, same);
      before = λ _. omega (arith, same);
      strict = λ _. h.shorter;
    }

-- At the end of the input, or at a byte 0, which the lexer takes for it.
scan_end-Emits :
    (r : Text) (p : Position) → head_or_zero r ≡ 0 → Emits r p (scan (record { rest = r; at = p }))
unfolding scan_at
scan_end-Emits r p h = rw h (record {
  reaches = Reaches-refl r p;
  from = omega arith;
  bounded = omega arith;
  before = unfold ends_input in λ e. cc;
  strict = unfold ends_input in λ e. cc;
})

scan-Emits : (r : Text) (p : Position) → Emits r p (scan (record { rest = r; at = p }))
scan-Emits [] p = scan_end-Emits [] p refl
scan-Emits (c ∷ r) p = elim (ℕ_discrete c 0) [
  | yes z ↦ scan_end-Emits (c ∷ r) p z
  | no nz ↦
      let l : Lexer = record { rest = c ∷ r; at = p } in
      Advances-Emits (c ∷ r) p (scan l) (pos-scan l) (scan-Advances c r p nz)
]

Emits-trans :
    {r : Text} {p : Position} (l : Lexer) {s : Scan}
    → Reaches r p l
    → Emits l.rest l.at s
    → Emits r p s
Emits-trans l h e = record {
  reaches = Reaches-trans l h e.reaches;
  from = omega (arith, e.from);
  bounded = e.bounded;
  before = e.before;
  strict = λ x. omega (arith, e.strict x);
}

-- Behind `--` at least one byte is read.
comment-Reaches :
    (r : Text) (p : Position)
    → (head_or_zero r == b'-') ≡ true
    → Reaches r p (skip_line_comment r p) × (length (skip_line_comment r p).rest < length r)
comment-Reaches [] p h = cc
comment-Reaches (c ∷ r) p h =
    (skip_line_comment-Reaches (c ∷ r) p, skip_line_comment-lt c r p (ground arith))

-- With more fuel than there are bytes left, `NextToken` returns.
pub next_token_total :
    (fuel : ℕ) (l : Lexer)
    → length l.rest < fuel
    → (s : Scan) × (next_token fuel l ≡ some s) × Emits l.rest l.at s
unfolding next_token
next_token_total zero l h = elim h [ ]
next_token_total (suc fuel) l h =
    let (s, skipped, spaces) = skip_whitespace_total (suc (length l.rest)) l (omega arith) in
    elim (Bool-cases (head_or_zero s.rest == b'-' && second s == b'-')) [
      | inl comment ↦
          let (read, fewer) = comment-Reaches s.rest s.at (ground arith) in
          let after = skip_line_comment s.rest s.at in
          let (t, e, emits) = next_token_total fuel after (omega (arith, spaces.shorter, fewer)) in
          (t, rw (skipped, comment) e, Emits-trans s spaces (Emits-trans after read emits))
      | inr other ↦ (scan s, rw (skipped, other), Emits-trans s spaces (scan-Emits s.rest s.at))
    ]
