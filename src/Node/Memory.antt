-- ===== src/Node/Memory.antt =====
-- src/api.cpp: allocation, locks and reads.
use cachecoherence.Base.{
  ℕ, ◌+◌, ◌%◌, ◌^◌, Option, none, some, Bool, true, false, List, [], ◌∷◌, not, ◌&&◌, ◌||◌, leb, ltb,
  ◌==◌, if◌then◌else◌, ok, stop, undefined,
}
use cachecoherence.Base.OrdMap
use cachecoherence.Defs.Address.{GlobalAddress, Platform, sendable, get_node_id}
use cachecoherence.Defs.Message.{SaveData, LockState, unlocked, shared_lock, shared, ImmData}
use cachecoherence.Cache.{CacheItem, add_cache_item, get_cache_item}
use cachecoherence.Locks.{lock_node, set_local}
use cachecoherence.Node.State.{
  asked, freed, reset, Node, M, pure, ◌>>=◌, ◌>>◌, halt, get, emit, now, await_allocation, load,
  as_global, as_word,
}
use cachecoherence.Node.Network.{
  port, close, connect_client_socket, send_lock, close_client_socket, send_address,
  broadcast_invalidations,
}

-- `sizeof(defs::SaveData)`: two words, two smaller fields in a third, and a vector of three words
abbrev pub save_data_size : ℕ
save_data_size = 40

-- `Node::isLocal`
unfoldable pub is_local : GlobalAddress → Node → Bool
unfolding get_node_id
is_local gaddr n = get_node_id gaddr == n.id

-- The allocation of what `malloc` returned: its memory reads as what was there before.
unfoldable pub add_memory : ℕ → SaveData → M (Unit {0})
add_memory ptr d n = ok (tt, record n { memory = OrdMap.insert ptr d n.memory })

-- `Node::Malloc`
unfoldable pub malloc : ℕ → M GlobalAddress
unfolding await_allocation add_memory connect_client_socket send_address sendable
malloc size = do
  self ← get
  emit (asked ((size + save_data_size) % 2 ^ 64))
  buffer ← await_allocation
  elim buffer [
    | some (ptr, d) ↦ do add_memory ptr d; pure (record { size = size; ptr = ptr; id = self.id })
    | none ↦ do
      c ← connect_client_socket port
      res ←
          send_address (sendable (record { size = size; ptr = 0; id = 0 }) self.id) ImmData.malloc c
      c' ← close c
      emit (reset c'.qpn)
      as_global res
  ]

-- `free`: of a null pointer it does nothing.
unfoldable pub free_memory : ℕ → M (Unit {0})
free_memory ptr n = if ptr == 0 then ok (tt, n) else elim (OrdMap.find ptr n.memory) [
  | none ↦ stop undefined
  | some _ ↦ ok (tt, record n { memory = OrdMap.erase ptr n.memory; log = freed ptr ∷ n.log })
]

abbrev pub is_empty : List ℕ → Bool
is_empty [] = true
is_empty (_ ∷ _) = false

-- `Node::Free`
unfoldable pub free : GlobalAddress → M GlobalAddress
unfolding is_local load free_memory connect_client_socket send_address close_client_socket sendable
    broadcast_invalidations
free gaddr = do
  self ← get
  elim (is_local gaddr self) [
    | true ↦ do
      d ← load gaddr.ptr
      elim (leb 0 d.iscached && not (is_empty d.sharer_nodes)) [
        | true ↦ broadcast_invalidations d.sharer_nodes gaddr
        | false ↦ pure tt
      ]
      free_memory gaddr.ptr
      pure (record gaddr { ptr = 0; size = 0 })
    | false ↦ do
      c ← connect_client_socket port
      res ← send_address (sendable gaddr self.id) ImmData.free c
      add ← as_global res
      _ ← close_client_socket c
      pure add
  ]

-- The pointer that `performRead` returns: null, into the node's memory, to a receive buffer of which
-- only the data has been written, or to a new object.
pub data Ref : Type 0 where
  null : Ref
  in_memory : ℕ → Ref
  received : ℕ → Ref
  made : SaveData → Ref

-- `->data` through that pointer
unfoldable pub data_of : Ref → M ℕ
unfolding load
data_of null = halt undefined
data_of (in_memory ptr) = do d ← load ptr; pure d.value
data_of (received w) = pure w
data_of (made d) = pure d.value

-- `getCacheItem` on the node's cache, which reads the clock at a hit
unfoldable pub cached : Platform → GlobalAddress → M (Option CacheItem)
unfolding get_cache_item
cached p gaddr n =
    let (r, cache') = get_cache_item p n.cache gaddr (p.clock n.ticks) in
    elim r [
      | none ↦ ok (none, n)
      | some it ↦ ok (some it, record n { cache = cache'; ticks = n.ticks + 1 })
    ]

-- `addCacheItem` on the node's cache
unfoldable pub add_cached : Platform → GlobalAddress → CacheItem → M (Unit {0})
add_cached p gaddr it n = elim (add_cache_item p n.cache gaddr it) [
  | ok cache' ↦ ok (tt, record n { cache = cache' })
  | stop s ↦ stop s
]

-- `Node::performRead`
unfoldable pub perform_read : Platform → GlobalAddress → ℕ → M Ref
unfolding is_local load cached add_cached connect_client_socket send_address close_client_socket
    sendable
perform_read p gaddr src_id = do
  self ← get
  elim (is_local gaddr self) [
    | true ↦ do
      d ← load gaddr.ptr
      pure (if ltb d.iscached 0 || ltb 2 d.iscached then null else in_memory gaddr.ptr)
    | false ↦ do
      item ← cached p gaddr
      elim item [
        | none ↦ do
          c ← connect_client_socket port
          res ← send_address (sendable gaddr src_id) ImmData.read c
          w ← as_word res
          created ← now p
          used ← now p
          add_cached p gaddr
              (record { global_address = gaddr; value = w; created = created; last_used = used })
          _ ← close_client_socket c
          pure (received w)
        | some it ↦ pure (
            made
              (record { value = it.value; iscached = shared; owner_node = 0; sharer_nodes = [] }))
      ]
  ]

-- `Node::setLock`
unfoldable pub set_lock : ℕ → LockState → M Bool
unfolding set_local connect_client_socket send_lock close_client_socket
set_lock lock_id state = do
  self ← get
  elim (self.id == lock_node) [
    | true ↦
        let (answer, locks') = set_local self.locks lock_id state in
        λ n. ok (answer, record n { locks = locks' })
    | false ↦ do
      c ← connect_client_socket lock_node
      res ← send_lock (record { id = lock_id; state = state }) ImmData.locks c
      _ ← close_client_socket c
      pure res
  ]

-- `Node::read`
unfoldable pub read : Platform → GlobalAddress → M ℕ
unfolding set_lock perform_read data_of
read p gaddr = do
  self ← get
  got ← set_lock gaddr.id shared_lock
  elim got [
    | true ↦ do
      result ← perform_read p gaddr self.id
      _ ← set_lock gaddr.id unlocked
      data_of result
    | false ↦ pure 0
  ]
