-- ===== src/Json.antt =====
-- The libraries that the service calls and does not implement, as an interface with laws
-- (Interface), and a small library that keeps the laws (Sample).
mod Interface
pub mod Sample
pub use Interface.{Library, Laws, FeedLaws}
