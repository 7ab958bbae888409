-- ===== src/Rdma/Registered.antt =====
-- rdma/MemoryRegion.h, and what rdma/Network.cpp and rdma/QueuePair.cpp hand out and pass on. Regions,
-- slices, requests and the library's state are the library's, and so are the functions on them.
use cachecoherence.Base.{
  ℕ, ◌+◌, ◌*◌, ◌%◌, ◌^◌, ◌<◌, ◌≡◌, List, Run, replicate, length, arith, zero, suc, refl, ap, ◌-◌,
}
use cachecoherence.Rdma.Exchange.{RemoteAddress}

-- `Network`, by the numbers of its context, its protection domain, its shared pair of completion
-- queues and its shared receive queue.
pub record Resources : Type 0 where
  pub context : ℕ
  pub protection_domain : ℕ
  pub shared_completion_queue_pair : ℕ
  pub shared_receive_queue : ℕ

-- `Network::getProtectionDomain`
unfoldable pub get_protection_domain : Resources → ℕ
get_protection_domain network = network.protection_domain

-- `Network::getSharedCompletionQueue`
unfoldable pub get_shared_completion_queue : Resources → ℕ
get_shared_completion_queue network = network.shared_completion_queue_pair

-- `Network::newCompletionQueuePair`, over the constructor of `CompletionQueuePair`
unfoldable pub new_completion_queue_pair : {Pair : Type 0} → (ℕ → Pair) → Resources → Pair
new_completion_queue_pair completion_queue_pair network = completion_queue_pair network.context

-- `QueuePair`, by the numbers of the library's queue pair and of the queue for its receives.
pub record QueuePair : Type 0 where
  pub qp : ℕ
  pub receive_queue : ℕ

-- `QueuePair::getQPN`
unfoldable pub get_qpn : (ℕ → ℕ) → QueuePair → ℕ
get_qpn get_num pair = get_num pair.qp

-- `QueuePair::getMaxInlineSize`
unfoldable pub get_max_inline_size : QueuePair → ℕ
get_max_inline_size pair = 512

-- `QueuePair::postWorkRequest`, over `postSend`
unfoldable pub post_work_request :
    {Library SendWr : Type 0}
    → (ℕ → SendWr → Library → Run Library)
    → QueuePair
    → SendWr
    → Library
    → Run Library
post_work_request post_send pair work_request = post_send pair.qp work_request

-- `QueuePair::postRecvRequest`, over `postRecv`
unfoldable pub post_recv_request :
    {Library Recv : Type 0}
    → (ℕ → Recv → Library → Run Library)
    → QueuePair
    → Recv
    → Library
    → Run Library
post_recv_request post_recv pair recv_request = post_recv pair.receive_queue recv_request

-- `registerMemoryRegion` of the library: a protection domain, and then the memory and the access.
abbrev pub Registers : Type 0 → Type 0 → Type 0
Registers Access Region = ℕ → ℕ → ℕ → List Access → Region

-- `Network::registerMr`
unfoldable pub register_mr :
    {Access Region : Type 0} → Registers Access Region → Resources → ℕ → ℕ → List Access → Region
register_mr register_memory_region network addr size flags =
    register_memory_region network.protection_domain addr size flags

-- `RegisteredMemoryRegion`: a vector, by the pointer to its elements and by their values, and the
-- region over it.
pub record RegisteredMemoryRegion (T Region : Type 0) : Type 0 where
  pub pointer : ℕ
  pub underlying : List T
  pub mr : Region

-- its constructor: `size_of_t` is `sizeof(T)`, `blank` what an element is initialised with, `pointer`
-- what the vector has allocated
unfoldable pub new_region :
    {T Access Region : Type 0}
    → Registers Access Region
    → ℕ
    → T
    → ℕ
    → ℕ
    → Resources
    → List Access
    → RegisteredMemoryRegion T Region
unfolding register_mr
new_region registers size_of_t blank pointer size net flags =
    let underlying = replicate size blank in
    record {
      pointer = pointer;
      underlying = underlying;
      mr = register_mr registers net pointer ((length underlying * size_of_t) % 2 ^ 64) flags;
    }

module _ {T Region : Type 0} where
  -- `get`, the vector
  unfoldable pub get : RegisteredMemoryRegion T Region → List T
  get r = r.underlying

  -- `data`, and `begin` by the pointer that it stands for
  unfoldable pub begin : RegisteredMemoryRegion T Region → ℕ
  begin r = r.pointer

  -- `end`, likewise
  unfoldable pub end : ℕ → RegisteredMemoryRegion T Region → ℕ
  end size_of_t r = r.pointer + length r.underlying * size_of_t

  -- `rdmaMr`
  unfoldable pub rdma_mr : RegisteredMemoryRegion T Region → Region
  rdma_mr r = r.mr

  -- `getAddr`, over `getRemoteAddress`
  unfoldable pub get_addr :
      (Region → RemoteAddress) → RegisteredMemoryRegion T Region → RemoteAddress
  get_addr get_remote_address r = get_remote_address r.mr

-- `getSlice` of the whole region, and of a part of it, over the library's
unfoldable pub get_slice :
    {T Region Slice : Type 0} → (Region → Slice) → RegisteredMemoryRegion T Region → Slice
get_slice slice r = slice r.mr

unfoldable pub get_slice_at :
    {T Region Slice : Type 0}
    → (Region → ℕ → ℕ → Slice)
    → RegisteredMemoryRegion T Region
    → ℕ
    → ℕ
    → Slice
get_slice_at slice r offset slice_length = slice r.mr offset slice_length

length-replicate : {T : Type 0} (k : ℕ) (x : T) → length (replicate k x) ≡ k
length-replicate zero x = refl
length-replicate (suc k) x = ap suc (length-replicate k x)

-- The memory that is registered is that of the elements, from the first one to behind the last one,
-- in the protection domain of the network.
pub new_region-covers :
    {T Access : Type 0} (size_of_t : ℕ) (blank : T) (pointer size : ℕ) (net : Resources)
    (flags : List Access)
    → size * size_of_t < 2 ^ 64
    → let r =
        new_region {Region = ℕ × ℕ × ℕ}
          (λ (domain address bytes : ℕ) (access : List Access). (domain, address, bytes))
          size_of_t
          blank
          pointer
          size
          net
          flags in
      (rdma_mr r ≡ (net.protection_domain, begin r, end size_of_t r - begin r))
      × (length (get r) ≡ size)
unfolding new_region rdma_mr begin end get
new_region-covers size_of_t blank pointer size net flags small =
    ground (arith, length-replicate size blank)
