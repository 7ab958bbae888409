-- ===== src/Node.antt =====
-- src/Node.h: a node, from the client's side and the server's.
pub mod State
pub mod Network
pub mod Memory
pub mod Writing
pub mod Serving
pub mod Sharing
pub mod Dialling
pub mod Stale
pub mod Coherence
pub mod Locking
pub mod Reading
pub mod Owning
pub mod Keeping
