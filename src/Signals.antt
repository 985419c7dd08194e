-- ===== src/Signals.antt =====
-- `SignalWaiter` of storage-core/src/signals.hpp and storage-core/src/signals.cpp: its steps (Defs)
-- and their histories (Once).
mod Defs
pub mod Once
unfoldable pub use Defs.*
