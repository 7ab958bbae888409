-- ===== src/Defs/Address.antt =====
-- util/defs.h: global addresses and their form on the wire, and util/GlobalAddressHash.h.
-- Sizes and pointers are 64-bit words and node ids 16-bit words; no operation here computes with
-- them but the hash. A pointer is its integer value, `nullptr` is 0.
use cachecoherence.Base.{ℕ, ◌*◌, ◌%◌, ◌^◌, bit_xor}

pub record SendGlobalAddr : Type 0 where
  pub size : ℕ
  pub ptr : ℕ
  pub id : ℕ
  pub src_id : ℕ

pub record GlobalAddress : Type 0 where
  pub size : ℕ
  pub ptr : ℕ
  pub id : ℕ

-- `GlobalAddress::sendable`
unfoldable pub sendable : GlobalAddress → ℕ → SendGlobalAddr
sendable g src_id = record { size = g.size; ptr = g.ptr; id = g.id; src_id = src_id }

-- the explicit constructor `GlobalAddress(SendGlobalAddr)`
unfoldable pub of_sendable : SendGlobalAddr → GlobalAddress
of_sendable s = record { size = s.size; ptr = s.ptr; id = s.id }

unfoldable pub get_node_id : GlobalAddress → ℕ
get_node_id g = g.id

-- What the node takes from its platform: `std::hash` of an integer, and the reading of the system
-- clock (ticks since the epoch) at the n-th call of `now`.
pub record Platform : Type 0 where
  pub std_hash : ℕ → ℕ
  pub clock : ℕ → ℕ

-- `GlobalAddressHash<SendGlobalAddr>::operator()`; the shift drops what leaves the 64 bits.
unfoldable pub hash : Platform → SendGlobalAddr → ℕ
hash p ga =
    let h1 = p.std_hash ga.size in
    let h2 = p.std_hash ga.ptr in
    let h3 = p.std_hash ga.id in bit_xor h1 (bit_xor h2 ((h3 * 2) % 2 ^ 64))
