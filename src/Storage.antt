-- ===== src/Storage.antt =====
-- Storage (internal/storage): resumable uploads.
pub mod Tus
