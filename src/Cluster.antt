-- ===== src/Cluster.antt =====
-- The nodes together: the copies of one object, and what reads of it return.
pub mod World
pub mod Calls
pub mod Sessions
pub mod Asking
pub mod Coherence
pub mod Invalidation
pub mod Register
pub mod Progress
pub mod Stuck
pub mod Locked
pub mod Elsewhere
pub mod Freeing
pub mod Rewriting
