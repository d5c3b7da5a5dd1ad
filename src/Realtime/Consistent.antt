-- ===== src/Realtime/Consistent.antt =====
-- The invariant that ties the two tables of subscriptions together: `Conn.channels` and
-- `Channel.subscribers`.
pub mod Invariant
pub mod Join
pub mod Leave
pub mod Left
pub mod Handlers
pub mod Close
pub mod Closed
