-- ===== src/Tests.antt =====
-- Concrete runs of the model, and each theorem at a concrete input.
mod Samples
mod Codec
mod Dedup
mod Events
mod Http
mod Auth
mod Socket
mod Shared
mod Panels
mod Pages
mod Hub
mod Videos
mod Board
mod Jobs
mod Stream
mod Handlers
mod Screens
mod Replay
mod Races
mod Accounts
