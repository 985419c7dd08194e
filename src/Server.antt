-- ===== src/Server.antt =====
-- storage-core/include/server.hpp and storage-core/src/server.cpp: the handlers (Handlers), their
-- query parameters (Index, Params), the slice of GET /blocks (Slice), POST /events (Events), the
-- handle that stops the server (Handle, Stopping), serve (Serve), install_routes (Routes), and a
-- request from its route to its response (Statuses, Replies, Answers, Exchange).
pub mod Index
pub mod Handlers
pub mod Handle
pub mod Params
pub mod Slice
pub mod Events
pub mod Stopping
pub mod Serve
pub mod Routes
pub mod Statuses
pub mod Replies
pub mod Answers
pub mod Exchange
unfoldable pub use Index.*
unfoldable pub use Handlers.*
unfoldable pub use Handle.*
