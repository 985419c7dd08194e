-- ===== src/Block.antt =====
-- storage-core/include/block.hpp: the data and its functions (Defs, Clock), the JSON form
-- (Encoding) and the hash (Hash).
mod Defs
pub mod Clock
pub mod Encoding
pub mod Hash
unfoldable pub use Defs.*
unfoldable pub use Clock.*
