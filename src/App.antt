-- ===== src/App.antt =====
-- app/HashTable.h: the hash table that is built on the distributed memory.
pub mod Interface
pub mod HashTable
pub mod Stacks
pub mod Methods
pub mod OnNode
pub mod Sessions
pub mod Placement
pub mod Simulation
pub mod Subscript
pub mod Shrinking
pub mod Clearing
pub mod Histories
