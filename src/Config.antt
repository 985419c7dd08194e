-- ===== src/Config.antt =====
-- storage-core/include/config.hpp: the configuration (Defs) and what it accepts (Address).
mod Defs
pub mod Address
unfoldable pub use Defs.*
