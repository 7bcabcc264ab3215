-- ===== src/Notifications.antt =====
-- frontend/src/modules/notifications: the events that the server pushes, and what the client does
-- with them.
pub mod Types
pub mod Dedup
pub mod Events
pub mod Socket
pub mod Feed
pub mod Unread
pub mod Popover
pub mod Toast
