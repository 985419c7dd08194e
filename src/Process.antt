-- ===== src/Process.antt =====
-- storage-core/src/main.cpp from the start of the threads to the exit of the process: its runs
-- (Defs), and what a run leaves for the next one (Restart).
mod Defs
pub mod Restart
unfoldable pub use Defs.*
