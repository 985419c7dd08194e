-- ===== src/Writer.antt =====
-- The writer thread of storage-core/include/writer.hpp and storage-core/src/writer.cpp: its state
-- and loop (Defs), one request (Request), many requests (Loop), and
-- the thread on its queue (Thread).
mod Defs
pub mod Request
pub mod Loop
pub mod Thread
unfoldable pub use Defs.*
