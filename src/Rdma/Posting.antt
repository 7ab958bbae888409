-- ===== src/Rdma/Posting.antt =====
-- The requests that a node posts are within what its queue pairs have been made for.
use cachecoherence.Base.{
  ℕ, ◌+◌, ◌%◌, ◌^◌, ◌<◌, ◌≤◌, ◌≡◌, ◌↔◌, refl, true, ◌||◌, List, [], ◌∷◌, length, ok, arith,
}
use cachecoherence.Defs.Address.{SendGlobalAddr}
use cachecoherence.Defs.Message.{ImmData}
use cachecoherence.Node.State.{Payload, address, address_head, content, lock, flag, word}
use cachecoherence.Rdma.Device.{
  new_network, Network, max_wr, max_sge, new_queue_pair, create_write_with_imm,
}

-- The sizes of what a node sends: packed `SendGlobalAddr` and `SendingData`, the first part of an
-- address, `Lock` with an `enum` of four bytes, `bool`, and `uint64_t`.
abbrev pub size_of : Payload → ℕ
size_of x = elim x [
  | address a ↦ 8 + 8 + 2 + 2
  | address_head a ↦ 8 + 8 + 2
  | content d ↦ 8 + 8 + 20
  | lock l ↦ 2 + 4
  | flag b ↦ 1
  | word w ↦ 8
]

abbrev pub sum : List ℕ → ℕ
sum [] = 0
sum (n ∷ ns) = n + sum ns

-- What a request takes from memory: a struct alone, or, in `Node::sendAddress`, an address and as many
-- bytes behind it as its object has. The length of a slice has 32 bits.
pub data Posted : Type 0 where
  alone : Payload → Posted
  with_object : SendGlobalAddr → Posted

unfoldable pub posted_size : Posted → ℕ
posted_size (alone x) = size_of x
posted_size (with_object a) = (size_of (address a) + a.size) % 2 ^ 32

-- Which of them a queue pair takes.
abbrev pub IsTaken : Posted → Type 0
IsTaken x = elim x [ alone x ↦ Unit {0} | with_object a ↦ a.size ≤ 492 ]

abbrev pub IsObject : Posted → Type 0
IsObject x = elim x [ alone x ↦ Unit {0} | with_object a ↦ a.size + 20 < 2 ^ 32 ]

-- Whatever a node sends, for objects of less than 4 GiB - 20 bytes, is one slice, which leaves a
-- completion behind; and it can be posted inline exactly if it is not an address that goes out with its object's
-- size behind it, as the requests of clients do, or if the object has no more than 492 bytes.
pub posted-fits :
    (x : Posted) (imm : ImmData) (remote kind send_queue receive_queue shared_queue : ℕ)
    → IsObject x
    → let request = create_write_with_imm (posted_size x) remote imm in
      let pair = new_queue_pair kind send_queue receive_queue shared_queue in
      (length request.slices ≤ pair.capabilities.max_send_sge)
      × ((sum request.slices ≤ pair.capabilities.max_inline_data) ↔ IsTaken x)
      × ((request.is_signaled || pair.signal_all) ≡ true)
unfolding create_write_with_imm new_queue_pair posted_size
posted-fits (alone (address a)) imm remote kind s r q small = ground arith
posted-fits (alone (address_head a)) imm remote kind s r q small = ground arith
posted-fits (alone (content d)) imm remote kind s r q small = ground arith
posted-fits (alone (lock l)) imm remote kind s r q small = ground arith
posted-fits (alone (flag b)) imm remote kind s r q small = ground arith
posted-fits (alone (word w)) imm remote kind s r q small = ground arith
posted-fits (with_object a) imm remote kind s r q small = ground arith

-- A network is set up exactly where there is one device, and on that device.
pub new_network-one :
    (devices : List ℕ) (device : ℕ)
    → ((n : Network) × (new_network devices ≡ ok n) × (n.device ≡ device)) ↔ (devices ≡ device ∷ [])
unfolding new_network
new_network-one [] device = ground arith
new_network-one (d ∷ []) device =
    let opened : Network = record { device = d; srq_wr = max_wr; srq_sge = max_sge } in
    (λ (n, runs, same). ground (arith, runs, same), λ e. (opened, refl, ground (arith, e)))
new_network-one (d ∷ e ∷ devices) device = ground arith
