-- ===== src/Rdma.antt =====
-- rdma and util/RDMANetworking.cpp: queue pairs and their completions.
pub mod Modify
pub mod Handshake
pub mod Completion
pub mod Polling
pub mod Layout
pub mod Exchange
pub mod Meeting
pub mod Device
pub mod Report
pub mod Details
pub mod Posting
pub mod Wire
pub mod Registered
pub mod Networking
