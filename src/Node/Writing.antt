-- ===== src/Node/Writing.antt =====
-- src/api.cpp and src/Send.cpp: writes. A client whose write makes the server invalidate copies
-- serves requests itself in between; `serve` stands for `Node::connectAndReceive`, whose definition
-- (Node/Serving) comes after those that call it.
use cachecoherence.Base.{ℕ, true, false, [], not, ◌&&◌, leb, ltb, ◌==◌, ok, stop}
use cachecoherence.Defs.Address.{GlobalAddress, Platform, of_sendable}
use cachecoherence.Defs.Message.{
  SendingData, Data, unlocked, exclusive, unshared, exclus, ImmData, imm_code, sendable,
}
use cachecoherence.Cache.{CacheItem, alter_cache_item}
use cachecoherence.Node.State.{
  Payload, content, reset, Connection, M, pure, ◌>>=◌, ◌>>◌, get, emit, now, await_message, load,
  store, as_address,
}
use cachecoherence.Node.Network.{
  port, exchange, post, close, connect_client_socket, close_client_socket, broadcast_invalidations,
}
use cachecoherence.Node.Memory.{is_local, is_empty, set_lock}

-- `alterCacheItem` on the node's cache
unfoldable pub alter_cached : Platform → CacheItem → GlobalAddress → M (Unit {0})
alter_cached p ci gaddr n = elim (alter_cache_item p n.cache ci gaddr) [
  | ok cache' ↦ ok (tt, record n { cache = cache' })
  | stop s ↦ stop s
]

-- The local branch of `Node::write`.
unfoldable pub write_local : Data → M GlobalAddress
unfolding load store broadcast_invalidations
write_local d = do
  self ← get
  old ← load d.ga.ptr
  elim (leb 0 old.iscached && (not (is_empty old.sharer_nodes) && ltb old.iscached 3)) [
    | true ↦ broadcast_invalidations old.sharer_nodes d.ga
    | false ↦ pure tt
  ]
  store d.ga.ptr
      (record { value = d.value; iscached = unshared; owner_node = self.id; sharer_nodes = [] })
  pure d.ga

module _ (serve : ℕ → M (Unit {0})) where
  -- `Node::prepareForInvalidate`: what the receive buffer holds afterwards, and the new connection
  unfoldable pub prepare_for_invalidate : Connection → M (Payload × Connection)
  unfolding await_message connect_client_socket
  prepare_for_invalidate c = do
    (_, x) ← await_message
    emit (reset c.qpn)
    _ ← close c
    self ← get
    serve self.id
    newcon ← connect_client_socket port
    pure (x, newcon)

  -- `Node::sendData`: the address, and the connection, which may be a new one
  unfoldable pub send_data : SendingData → ImmData → Connection → M (GlobalAddress × Connection)
  unfolding imm_code await_message prepare_for_invalidate of_sendable
  send_data d imm c = do
    exchange c
    post c imm (content d)
    (new_imm, x) ← await_message
    (y, c') ← elim (new_imm == imm_code ImmData.invalidate) [
      | true ↦ prepare_for_invalidate c
      | false ↦ pure (x, c)
    ]
    sga ← as_address y
    pure (of_sendable sga, c')

  -- `Node::performWrite`
  unfoldable pub perform_write : Platform → Data → ℕ → M GlobalAddress
  unfolding is_local store connect_client_socket alter_cached sendable send_data close_client_socket
  perform_write p d src_id = do
    self ← get
    elim (is_local d.ga self) [
      | true ↦ do
        store d.ga.ptr
            (record { value = d.value; iscached = exclus; owner_node = src_id; sharer_nodes = [] })
        pure d.ga
      | false ↦ do
        c ← connect_client_socket port
        created ← now p
        used ← now p
        let ci : CacheItem = record {
          global_address = d.ga;
          value = d.value;
          created = created;
          last_used = used;
        }
        alter_cached p ci d.ga
        (result, c') ← send_data (sendable d src_id) ImmData.write c
        _ ← close_client_socket c'
        pure result
    ]

  -- `Node::write`
  unfoldable pub write : Platform → Data → M GlobalAddress
  unfolding set_lock is_local write_local perform_write
  write p d = do
    self ← get
    got ← set_lock d.ga.id exclusive
    elim got [
      | false ↦ pure (record { size = 0; ptr = 0; id = 0 })
      | true ↦ do
        result ← elim (is_local d.ga self) [
          | true ↦ write_local d
          | false ↦ perform_write p d self.id
        ]
        _ ← set_lock d.ga.id unlocked
        pure result
    ]
