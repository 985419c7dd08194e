-- ===== src/Startup.antt =====
-- storage-core/src/main.cpp up to the start of the writer thread (Defs), and the state that it
-- hands to the writer (Boot).
mod Defs
pub mod Boot
unfoldable pub use Defs.*
