-- ===== src/Shared.antt =====
-- What the frontend's modules share: the browser's storage, the query cache, constants.
pub mod Storage
pub mod Query
pub mod RelativeTime
pub mod Initial
pub mod Text
pub mod Requests
