-- ===== src/Examples.antt =====
-- Concrete runs: the data (Data), and each property at an input that meets its conditions.
mod Data
mod Facts
mod Chains
mod Writing
mod Draining
mod Serving
mod Feeding
mod Reading
mod Running
mod Restarting
mod Exchanging
mod Subscribing
mod Replaying
mod ReadingBack
mod Auditing
mod Pumping
mod Locking
