-- ===== src/Rest.antt =====
-- The REST layer: filters, select lists and the SQL that is built from them (internal/rest).
pub mod Filters
pub mod Lists
pub mod Conditions
pub mod Builder
pub mod Relations
pub mod Parsing
pub mod Tests
