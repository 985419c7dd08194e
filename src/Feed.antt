-- ===== src/Feed.antt =====
-- The WebSocket feed of storage-core/include/ws.hpp and storage-core/src/ws.cpp: frames and pumps
-- (Frames), what a pump sends (Pump), a client that reads it (Reader) and asks for what it lost
-- (CatchUp), how a pump waits (Waiting, with Rested, Working and Wakeups), the connections (Defs) and
-- the subscriptions that they hold (Expiry, Release).
mod Frames
mod Defs
pub mod Pump
pub mod CatchUp
pub mod Reader
pub mod Waiting
pub mod Rested
pub mod Working
pub mod Wakeups
pub mod Expiry
pub mod Release
unfoldable pub use Frames.*
unfoldable pub use Defs.*
