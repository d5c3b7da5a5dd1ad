-- ===== src/Pgtranslate/Lexer.antt =====
-- The lexer: its state, the readers of literals, `NextToken` and `Tokenize`.
pub mod State
pub mod Literals
pub mod Scan
pub mod Progress
pub mod Skips
pub mod Advance
pub mod Quotes
pub mod Words
pub mod Numbers
pub mod Comments
pub mod Total
pub mod Runs
mod Tests
