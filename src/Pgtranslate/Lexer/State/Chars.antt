-- ===== src/Pgtranslate/Lexer/State/Chars.antt =====
-- Classes of bytes. A Go `byte` is a number below 256.
use sblite.Prelude.{ℕ, ◌-◌, Bool, ◌&&◌, ◌||◌, ◌==◌, leb, if◌then◌else◌}

unfoldable pub is_digit : ℕ → Bool
is_digit ch = leb b'0' ch && leb ch b'9'

unfoldable pub is_ident_start : ℕ → Bool
is_ident_start ch = (leb b'a' ch && leb ch b'z') || (leb b'A' ch && leb ch b'Z') || ch == b'_'

unfoldable pub is_ident_char : ℕ → Bool
unfolding is_ident_start is_digit
is_ident_char ch = is_ident_start ch || is_digit ch

-- The test of the loop in `skipWhitespace`.
unfoldable pub is_space : ℕ → Bool
is_space ch = ch == b' ' || ch == b'\t' || ch == b'\n' || ch == b'\r'

-- strings.ToUpper at one byte. Identifiers are ASCII, where it works byte by byte.
unfoldable pub to_upper : ℕ → ℕ
to_upper ch = if leb b'a' ch && leb ch b'z' then ch - 32 else ch
