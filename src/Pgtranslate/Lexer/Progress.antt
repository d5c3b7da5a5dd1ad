-- ===== src/Pgtranslate/Lexer/Progress.antt =====
-- Offsets and the bytes left behind the reads and skips of internal/pgtranslate/token.go.
use sblite.Prelude.{
  ℕ, ◌+◌, ◌≤◌, Text, [], ◌∷◌, ◌≡◌, true, arith, length, head_or_zero, ◌==◌, ◌<◌, ◌≢◌,
}
use sblite.Pgtranslate.Token.{Position}
use sblite.Pgtranslate.Lexer.State.{
  read_char, Lexer, move, arrive, skip_spaces, skip_line_comment, block_comment_body,
}

-- From the unread input `r` at `p` the lexer has come to `l` by reading.
pub record Reaches (r : Text) (p : Position) (l : Lexer) : Type 0 where
  pub total : l.at.offset + length l.rest ≡ p.offset + length r
  pub shorter : length l.rest ≤ length r

pub offset-move : (p : Position) (c : ℕ) → (move p c).offset ≡ p.offset + 1
unfolding move
offset-move p c = ground arith

pub Reaches-refl : (r : Text) (p : Position) → Reaches r p (record { rest = r; at = p })
Reaches-refl r p = omega arith

pub Reaches-trans :
    {r : Text} {p : Position} (l : Lexer) {l' : Lexer}
    → Reaches r p l
    → Reaches l.rest l.at l'
    → Reaches r p l'
Reaches-trans l h k = omega arith

-- `readChar` at a character.
pub arrive-Reaches : (c : ℕ) (r : Text) (p : Position) → Reaches (c ∷ r) p (arrive r p)
arrive-Reaches c r p = omega (arith, offset-move p)

-- A loop goes on from the next character.
pub step-Reaches :
    (c : ℕ) (r : Text) (p : Position) {l : Lexer}
    → Reaches r (move p (head_or_zero r)) l
    → Reaches (c ∷ r) p l
step-Reaches c r p h = omega (arith, offset-move p)

pub skip_spaces-Reaches : (r : Text) (p : Position) → Reaches r p (skip_spaces r p)
unfolding skip_spaces
skip_spaces-Reaches [] p = Reaches-refl [] p
skip_spaces-Reaches (c ∷ r) p = ground (
  arith,
  Reaches-refl (c ∷ r) p,
  step-Reaches c r p (skip_spaces-Reaches r (move p (head_or_zero r))),
)

pub skip_line_comment-Reaches : (r : Text) (p : Position) → Reaches r p (skip_line_comment r p)
unfolding skip_line_comment
skip_line_comment-Reaches [] p = Reaches-refl [] p
skip_line_comment-Reaches (c ∷ r) p = ground (
  arith,
  Reaches-refl (c ∷ r) p,
  arrive-Reaches c r p,
  step-Reaches c r p (skip_line_comment-Reaches r (move p (head_or_zero r))),
)

-- A line comment that does not start with a byte 0 has a byte to read.
pub skip_line_comment-lt :
    (c : ℕ) (r : Text) (p : Position)
    → c ≢ 0
    → length (skip_line_comment (c ∷ r) p).rest < length (c ∷ r)
unfolding skip_line_comment
skip_line_comment-lt c r p h =
    ground (arith, (skip_line_comment-Reaches r (move p (head_or_zero r))).shorter)

-- Reading the two characters of a delimiter.
pub read_two-Reaches :
    (c d : ℕ) (r : Text) (p : Position) → Reaches (c ∷ d ∷ r) p (read_char (arrive (d ∷ r) p))
read_two-Reaches c d r p = step-Reaches c (d ∷ r) p (arrive-Reaches d r (move p d))

block_end-Reaches :
    (c : ℕ) (r : Text) (p : Position)
    → (head_or_zero r == b'/') ≡ true
    → Reaches (c ∷ r) p (read_char (arrive r p))
block_end-Reaches c [] p h = cc
block_end-Reaches c (d ∷ r) p h = read_two-Reaches c d r p

pub block_comment_body-Reaches : (r : Text) (p : Position) → Reaches r p (block_comment_body r p)
unfolding block_comment_body
block_comment_body-Reaches [] p = Reaches-refl [] p
block_comment_body-Reaches (c ∷ r) p = ground (
  arith,
  Reaches-refl (c ∷ r) p,
  block_end-Reaches c r p,
  step-Reaches c r p (block_comment_body-Reaches r (move p (head_or_zero r))),
)

-- As `Reaches`, with at least one byte read.
pub record Advances (r : Text) (p : Position) (l : Lexer) : Type 0 where
  pub total : l.at.offset + length l.rest ≡ p.offset + length r
  pub shorter : length l.rest < length r

pub step-Advances :
    (c : ℕ) (r : Text) (p : Position) {l : Lexer}
    → Reaches r (move p (head_or_zero r)) l
    → Advances (c ∷ r) p l
step-Advances c r p h = omega (arith, offset-move p)

pub Advances-trans :
    {r : Text} {p : Position} (l : Lexer) {l' : Lexer}
    → Advances r p l
    → Reaches l.rest l.at l'
    → Advances r p l'
Advances-trans l h k = omega arith
