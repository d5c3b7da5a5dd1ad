-- ===== src/Pgtranslate/Lexer/Skips.antt =====
-- The skipping of white space and block comments: `skipWhitespace` of internal/pgtranslate/token.go.
use sblite.Prelude.{
  ℕ, zero, suc, Text, tail, length, head_or_zero, ◌==◌, ==_iff, ◌≡◌, refl, true, false, some, arith,
  ◌<◌, ◌&&◌, [], ◌∷◌, Bool-cases, inl, inr,
}
use sblite.Pgtranslate.Token.{Position}
use sblite.Pgtranslate.Lexer.State.{
  Lexer, move, skip_spaces, skip_block_comment, skip_whitespace, is_space,
}
use sblite.Pgtranslate.Lexer.Progress.{
  Reaches, Reaches-trans, step-Reaches, skip_spaces-Reaches, block_comment_body-Reaches,
}

block_comment_opened-Reaches :
    (r : Text) (p : Position)
    → (head_or_zero r == b'/') ≡ true
    → (head_or_zero (tail r) == b'*') ≡ true
    → Reaches r p (skip_block_comment (record { rest = r; at = p }))
      × (length (skip_block_comment (record { rest = r; at = p })).rest < length r)
block_comment_opened-Reaches [] p h k = absurd (omega (arith, (==_iff 0 b'/').0 h))
block_comment_opened-Reaches (c ∷ []) p h k = absurd (omega (arith, (==_iff 0 b'*').0 k))
block_comment_opened-Reaches (c ∷ d ∷ r) p h k =
    let q = move (move p d) (head_or_zero r) in
    let inside = block_comment_body-Reaches r q in
    (step-Reaches c (d ∷ r) p (step-Reaches d r (move p d) inside), omega (arith, inside.shorter))

-- With more fuel than there are bytes left, skipping white space ends.
pub skip_whitespace_total :
    (fuel : ℕ) (l : Lexer)
    → length l.rest < fuel
    → (s : Lexer) × (skip_whitespace fuel l ≡ some s) × Reaches l.rest l.at s
unfolding skip_whitespace
skip_whitespace_total zero l h = elim h [ ]
skip_whitespace_total (suc fuel) l h =
    let s = skip_spaces l.rest l.at in
    let spaces = skip_spaces-Reaches l.rest l.at in
    elim (Bool-cases (head_or_zero s.rest == b'/' && head_or_zero (tail s.rest) == b'*')) [
      | inl comment ↦
          let opened = block_comment_opened-Reaches s.rest s.at (ground arith) (ground arith) in
          let rest =
            skip_whitespace_total fuel (skip_block_comment s)
              (omega (arith, opened.1, spaces.shorter)) in
          (
            rest.0,
            rw comment rest.1,
            Reaches-trans s spaces (Reaches-trans (skip_block_comment s) opened.0 rest.2),
          )
      | inr done ↦ (s, rw done, spaces)
    ]

-- Behind the spaces there is none.
skip_spaces_stops :
    (r : Text) (p : Position) → is_space (head_or_zero (skip_spaces r p).rest) ≡ false
unfolding skip_spaces
skip_spaces_stops [] p = unfold is_space in refl
skip_spaces_stops (c ∷ r) p = ground (arith, skip_spaces_stops r (move p (head_or_zero r)))

-- The lexer stands at no space and at no block comment when it has skipped them.
skip_whitespace_stops :
    (fuel : ℕ) (l s : Lexer)
    → skip_whitespace fuel l ≡ some s
    → (is_space (head_or_zero s.rest) ≡ false)
      × ((head_or_zero s.rest == b'/' && head_or_zero (tail s.rest) == b'*') ≡ false)
unfolding skip_whitespace
skip_whitespace_stops zero l s h = cc
skip_whitespace_stops (suc fuel) l s h =
    let t = skip_spaces l.rest l.at in
    ground
      (arith, skip_spaces_stops l.rest l.at, skip_whitespace_stops fuel (skip_block_comment t) s)

-- With the fuel that `NextToken` gives it, `skipWhitespace` returns from every lexer, and behind it
-- the lexer stands neither at a space nor at a block comment.
pub skip_whitespace_clears :
    (l : Lexer)
    → (s : Lexer) × (skip_whitespace (suc (length l.rest)) l ≡ some s)
      × (is_space (head_or_zero s.rest) ≡ false)
      × ((head_or_zero s.rest == b'/' && head_or_zero (tail s.rest) == b'*') ≡ false)
skip_whitespace_clears l =
    let (s, returns, reaches) = skip_whitespace_total (suc (length l.rest)) l (omega arith) in
    let (no_space, no_comment) = skip_whitespace_stops (suc (length l.rest)) l s returns in
    (s, returns, no_space, no_comment)
