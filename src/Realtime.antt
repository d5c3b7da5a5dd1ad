-- ===== src/Realtime.antt =====
-- The Supabase Realtime server (internal/realtime): messages, presence, channels, the hub and the
-- handlers of a connection.
pub mod Protocol
pub mod Presence
pub mod Hub
pub mod Conn
pub mod Members
pub mod Consistent
pub mod Changes
pub mod Delivery
pub mod Filter
pub mod Runs
mod Tests
