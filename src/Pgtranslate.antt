-- ===== src/Pgtranslate.antt =====
-- The lexer of the PostgreSQL to SQLite translator (internal/pgtranslate/token.go).
pub mod Token
pub mod Lexer
