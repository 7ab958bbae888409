-- ===== src/Sockets.antt =====
-- util/socket: descriptors and their owners, streams of bytes, and the set-up of connections.
pub mod Descriptor
pub mod Ownership
pub mod Stream
pub mod Delivery
pub mod Domain
pub mod Tcp
pub mod Accepting
pub mod Names
pub mod Poll
pub mod Objects
pub mod Linked
