-- ===== src/Chain.antt =====
-- storage-core/include/chain.hpp and storage-core/src/chain.cpp: the chain and its check (Defs),
-- what the check decides (Verdict), what extends a valid chain (Growth), and why a changed chain is
-- noticed (Tamper).
mod Defs
pub mod Links
pub mod Verdict
pub mod Growth
pub mod Tamper
unfoldable pub use Defs.*
