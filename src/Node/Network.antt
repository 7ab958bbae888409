-- ===== src/Node/Network.antt =====
-- src/Send.cpp: connections, and the requests that a node sends over one. The registration of memory
-- regions and the work requests are one action each, `posted` with what lands at the peer.
use cachecoherence.Base.{ℕ, zero, suc, none, some, Bool, true, false, List, [], ◌∷◌, threw}
use cachecoherence.Defs.Address.{SendGlobalAddr, GlobalAddress, sendable}
use cachecoherence.Defs.Message.{Lock, unlocked, ImmData, imm_code}
use cachecoherence.Node.State.{
  Payload, address, lock, dialled, exchanged, linked, posted, reset, closed, Connection, M, pure,
  ◌>>=◌, ◌>>◌, halt, get, emit, fresh, await_connect, await_message, as_flag,
}

-- `defs::port`
abbrev pub port : ℕ
port = 3000

-- `tcp::write` and `tcp::read` of an address over the socket, which throw on a closed one
abbrev pub exchange : Connection → M (Unit {0})
exchange c = elim c.socket [ none ↦ halt threw | some s ↦ emit (exchanged s) ]

-- `postWorkRequest` of a write with immediate data, and its completion
abbrev pub post : Connection → ImmData → Payload → M (Unit {0})
post c imm x = emit (posted c.qpn (imm_code imm) x)

-- `Socket::close`
abbrev pub close : Connection → M Connection
close c = elim c.socket [
  | none ↦ pure c
  | some s ↦ emit (closed s) >> pure (record c { socket = none })
]

-- The loop of `connectClientSocket`: the attempts that are left; the last failure is thrown.
unfoldable pub dial : ℕ → ℕ → M (Unit {0})
unfolding await_connect
dial zero to = halt threw
dial (suc attempts) to = do
  b ← await_connect
  emit (dialled to b)
  elim b [ true ↦ pure tt | false ↦ dial attempts to ]

-- `Node::connectClientSocket`
unfoldable pub connect_client_socket : ℕ → M Connection
unfolding dial
connect_client_socket to = do
  qpn ← fresh
  s ← fresh
  let c : Connection = record { qpn = qpn; socket = some s }
  dial 12 to
  exchange c
  emit (linked qpn)
  pure c

-- `Node::sendLock`
unfoldable pub send_lock : Lock → ImmData → Connection → M Bool
unfolding imm_code await_message
send_lock l imm c = do exchange c; post c imm (lock l); (_, x) ← await_message; as_flag x

-- `Node::closeClientSocket`
unfoldable pub close_client_socket : Connection → M Connection
unfolding send_lock
close_client_socket c = do
  n ← get
  _ ← send_lock (record { id = n.id; state = unlocked }) ImmData.reset c
  emit (reset c.qpn)
  close c

-- `Node::sendAddress`, with what the receive buffer holds in the end
unfoldable pub send_address : SendGlobalAddr → ImmData → Connection → M Payload
unfolding imm_code await_message
send_address a imm c = do exchange c; post c imm (address a); (_, x) ← await_message; pure x

-- `Node::broadcastInvalidations`
unfoldable pub broadcast_invalidations : List ℕ → GlobalAddress → M (Unit {0})
unfolding sendable connect_client_socket send_address close_client_socket
broadcast_invalidations [] gaddr = pure tt
broadcast_invalidations (n ∷ nodes) gaddr = do
  self ← get
  c ← connect_client_socket n
  _ ← send_address (sendable gaddr self.id) ImmData.invalidate c
  _ ← close_client_socket c
  broadcast_invalidations nodes gaddr
