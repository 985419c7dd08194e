-- ===== src/Broadcast.antt =====
-- storage-core/include/broadcast.hpp and storage-core/src/broadcast.cpp: one subscriber's buffer
-- (Subscriber, with Calls, Gaps and Delivery) and the broadcaster (Publish, with Fanout and Sound;
-- Fed and Feeds are one consumer among others).
pub mod Subscriber
mod Publish
pub mod Ids
pub mod Calls
pub mod Gaps
pub mod Delivery
pub mod Fanout
pub mod Sound
pub mod Fed
pub mod Feeds
unfoldable pub use Subscriber.*
unfoldable pub use Publish.*
