-- ===== src/Backend.antt =====
-- backend/internal: the Go server behind the frontend.
pub mod Hub
pub mod Videos
pub mod Accounts
pub mod Routing
pub mod Unread
pub mod Jobs
pub mod Stream
pub mod Handlers
pub mod Replay
