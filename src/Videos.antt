-- ===== src/Videos.antt =====
-- frontend/src/modules/videos: the shared videos, their list and the form that shares one.
pub mod Keys
pub mod Types
pub mod Listing
