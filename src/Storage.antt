-- ===== src/Storage.antt =====
-- storage-core/include/storage.hpp and storage-core/src/storage.cpp: the ledger file (Defs), reload
-- after append (Reload) and the refusal of a malformed file (Malformed).
mod Defs
pub mod Reload
pub mod Malformed
pub mod Torn
unfoldable pub use Defs.*
