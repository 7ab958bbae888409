-- ===== src/Node/Serving.antt =====
-- src/Receive.cpp: the server's side, one handler for each request.
use cachecoherence.Base.{
  ℕ, zero, suc, Option, none, some, Bool, true, false, List, [], ◌∷◌, ◌++◌, not, ◌&&◌, ltb, ok,
  undefined, out_of_fuel,
}
use cachecoherence.Defs.Address.{Platform, sendable, of_sendable}
use cachecoherence.Defs.Message.{Data, SaveData, unshared, shared, ImmData, of_code}
use cachecoherence.Defs.Message
use cachecoherence.Cache.{remove_cache_item}
use cachecoherence.Node.State.{
  Payload, address, address_head, flag, word, listened, linked, reset, closed, Connection, M, pure,
  ◌>>=◌, ◌>>◌, halt, emit, fresh, await_accept, await_message, load, store, as_address, as_content,
  as_lock,
}
use cachecoherence.Node.Network.{exchange, post, close, broadcast_invalidations}
use cachecoherence.Node.Memory.{
  Ref, null, in_memory, received, made, malloc, free, perform_read, set_lock, is_empty,
}
use cachecoherence.Node.Writing.{perform_write}

-- `Node::handleAllocation`; the memory region of the answer is two bytes short of its last field.
unfoldable pub handle_allocation : Payload → Connection → M (Unit {0})
unfolding of_sendable malloc
handle_allocation x c = do
  sga ← as_address x
  newgaddr ← malloc (of_sendable sga).size
  post c ImmData.default (address_head newgaddr)

-- `Node::handleFree`
unfoldable pub handle_free : Payload → Connection → M (Unit {0})
unfolding of_sendable sendable free
handle_free x c = do
  sga ← as_address x
  res ← free (of_sendable sga)
  post c ImmData.default (address (sendable res sga.src_id))

-- `Node::handleLocks`
unfoldable pub handle_locks : Payload → Connection → M (Unit {0})
unfolding set_lock
handle_locks x c = do
  l ← as_lock x
  answer ← set_lock l.id l.state
  post c ImmData.default (flag answer)

-- The writes of `handleRead` through the pointer, and the data read back through it.
unfoldable pub share : Ref → ℕ → M ℕ
unfolding load store
share null src = halt undefined
share (in_memory ptr) src = do
  d ← load ptr
  store ptr (record d { iscached = shared; sharer_nodes = d.sharer_nodes ++ src ∷ [] })
  pure d.value
share (received w) src = halt undefined
share (made d) src = pure d.value

-- `Node::handleRead`
unfoldable pub handle_read : Platform → Payload → Connection → M (Unit {0})
unfolding of_sendable perform_read share
handle_read p x c = do
  sga ← as_address x
  d ← perform_read p (of_sendable sga) sga.src_id
  w ← share d sga.src_id
  post c ImmData.default (word w)

-- `Node::handleInvalidation`
unfoldable pub handle_invalidation : Platform → Payload → Connection → M (Unit {0})
unfolding of_sendable remove_cache_item
handle_invalidation p x c = do
  sga ← as_address x
  res ← λ n.
      let (k, cache') = remove_cache_item p n.cache (of_sendable sga) in
      ok (k, record n { cache = cache' })
  post c ImmData.default (word res)

-- `Node::handleReset`
unfoldable pub handle_reset : Connection → M Connection
handle_reset c = do post c ImmData.reset (flag false); emit (reset c.qpn); close c

-- The old data of a write, through the pointer of `performRead`: none at a null pointer.
unfoldable pub old_data : Ref → M (Option SaveData)
unfolding load
old_data null = pure none
old_data (in_memory ptr) = do d ← load ptr; pure (some d)
old_data (received w) = halt undefined
old_data (made d) = pure (some d)

-- `(olddata->iscached > UNSHARED) && !olddata->sharerNodes.empty() && olddata->iscached < 3`
unfoldable pub must_invalidate : SaveData → Bool
must_invalidate d = ltb unshared d.iscached && (not (is_empty d.sharer_nodes) && ltb d.iscached 3)

module _ (serve : ℕ → M (Unit {0})) (p : Platform) where
  -- `Node::startInvalidations`
  unfoldable pub start_invalidations : Data → List ℕ → ℕ → Connection → M Connection
  unfolding sendable perform_write broadcast_invalidations
  start_invalidations d nodes src_id c = do
    post c ImmData.invalidate (address (sendable d.ga src_id))
    result ← perform_write serve p d src_id
    post c ImmData.default (address (sendable result src_id))
    emit (reset c.qpn)
    c' ← close c
    broadcast_invalidations nodes d.ga
    pure c'

  -- the write and the answer where there is nothing to invalidate
  unfoldable pub plain_write : Data → ℕ → Connection → M (Unit {0})
  unfolding sendable perform_write
  plain_write d src_id c = do
    result ← perform_write serve p d src_id
    post c ImmData.default (address (sendable result src_id))

  -- `Node::handleWrite`, with the connection as it leaves it
  unfoldable pub handle_write : Payload → Connection → M (Bool × Connection)
  unfolding Message.of_sendable perform_read old_data must_invalidate start_invalidations
      plain_write
  handle_write x c = do
    senddata ← as_content x
    let d = Message.of_sendable senddata
    let src_id = senddata.sga.src_id
    ref ← perform_read p d.ga src_id
    old ← old_data ref
    elim old [
      | some o ↦ elim (must_invalidate o) [
        | true ↦ do c' ← start_invalidations d o.sharer_nodes src_id c; pure (false, c')
        | false ↦ plain_write d src_id c >> pure (true, c)
      ]
      | none ↦ plain_write d src_id c >> pure (true, c)
    ]

  -- the `switch` of `Node::receive`
  unfoldable pub dispatch : Option ImmData → Payload → Connection → M (Bool × Connection)
  unfolding handle_allocation handle_free handle_locks handle_read handle_invalidation handle_reset
      handle_write
  dispatch (some ImmData.malloc) x c = handle_allocation x c >> pure (true, c)
  dispatch (some ImmData.read) x c = handle_read p x c >> pure (true, c)
  dispatch (some ImmData.free) x c = handle_free x c >> pure (true, c)
  dispatch (some ImmData.write) x c = handle_write x c
  dispatch (some ImmData.locks) x c = handle_locks x c >> pure (true, c)
  dispatch (some ImmData.reset) x c = do c' ← handle_reset c; pure (false, c')
  dispatch (some ImmData.invalidate) x c = handle_invalidation p x c >> pure (true, c)
  dispatch _ x c = pure (true, c)

  -- `Node::receive`: whether the connection stays, and the connection
  unfoldable pub receive : Connection → M (Bool × Connection)
  unfolding await_message of_code dispatch
  receive c = do exchange c; (imm, x) ← await_message; dispatch (of_code imm) x c

-- `while (connected) connected = receive(c);` for so many rounds
unfoldable pub receive_loop : ℕ → (Connection → M (Bool × Connection)) → Connection → M Connection
receive_loop zero body c = halt out_of_fuel
receive_loop (suc rounds) body c = do
  (connected, c') ← body c
  elim connected [ true ↦ receive_loop rounds body c' | false ↦ pure c' ]

-- `Node::connectAndReceive`. The fuel bounds how deep a node that serves a request can come to serve
-- others in the course of it, and how many requests one connection carries.
unfoldable pub connect_and_receive : Platform → ℕ → ℕ → M (Unit {0})
unfolding await_accept receive_loop receive
connect_and_receive p zero at_port = halt out_of_fuel
connect_and_receive p (suc fuel) at_port = do
  soc ← fresh
  qpn ← fresh
  unused ← fresh
  emit (listened at_port)
  await_accept
  accepted ← fresh
  emit (closed unused)
  emit (closed soc)
  let c : Connection = record { qpn = qpn; socket = some accepted }
  exchange c
  emit (linked qpn)
  c' ← receive_loop fuel (receive (connect_and_receive p fuel) p) c
  _ ← close c'
  pure tt
