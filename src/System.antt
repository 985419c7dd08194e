-- ===== src/System.antt =====
-- The threads of storage-core/src/writer.cpp, storage-core/src/server.cpp and
-- storage-core/src/ws.cpp on their shared state, interleaved: the steps (Defs), the invariant
-- (Invariant with OnDisk and Hub, Phases, Moves), what it means (Safety), what waits for the
-- clients and what they are handed (Buffers, Clients, Handed, Placed, Replay, ReadBack, Audit), the writer on its own (Progress).
mod Defs
pub mod OnDisk
pub mod Hub
pub mod Invariant
pub mod Phases
pub mod Moves
pub mod Safety
pub mod Progress
pub mod Buffers
pub mod Clients
pub mod Handed
pub mod Placed
pub mod Replay
pub mod ReadBack
pub mod Audit
unfoldable pub use Defs.*
