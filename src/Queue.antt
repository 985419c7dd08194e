-- ===== src/Queue.antt =====
-- `WriteQueue` of storage-core/include/writer.hpp and storage-core/src/writer.cpp: the queue
-- (Defs), its histories (History), and who sleeps on it (Monitor, Sleepers, Wakeups).
mod Defs
pub mod History
pub mod Monitor
pub mod Sleepers
pub mod Wakeups
unfoldable pub use Defs.*
