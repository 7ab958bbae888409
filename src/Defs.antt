-- ===== src/Defs.antt =====
-- The types of util/defs.h.
pub mod Address
pub mod Message
