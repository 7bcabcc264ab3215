-- ===== src/Auth.antt =====
-- frontend/src/modules/auth: the session, its copy in the browser's storage, and who may see which
-- page.
pub mod Types
pub mod Session
pub mod Store
pub mod Reload
pub mod Identity
pub mod Bootstrap
pub mod Guards
pub mod Services
pub mod Client
