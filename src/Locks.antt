-- ===== src/Locks.antt =====
-- The mutexes of storage-core: who takes them and in which order (Defs), and that no threads wait for
-- one another in a circle (Order, Progress).
pub mod Defs
pub mod Order
pub mod Progress
