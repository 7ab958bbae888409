-- ===== src/Cluster/World.antt =====
-- Several nodes around one object: the node that owns it (src/Receive.cpp), and others that read it
-- through their caches (src/api.cpp). Each step is what a node does while it holds the lock of the
-- object. In a session what the one side posts is what arrives at the other.
use cachecoherence.Base.{ℕ, ◌≡◌, ◌≢◌, List, [], ◌∷◌, ◌++◌, ◌==◌, if◌then◌else◌, true, ok, map}
use cachecoherence.Defs.Address.{GlobalAddress, Platform, sendable}
use cachecoherence.Defs.Message.{Data, unlocked, ImmData, imm_code}
use cachecoherence.Node.State.{
  address, lock, Input, connects, accepts, arrives, Output, posted, dialled, Node, M,
}
use cachecoherence.Node.Network.{port}
use cachecoherence.Node.Memory.{Ref, perform_read, data_of}
use cachecoherence.Node.Writing.{write_local}
use cachecoherence.Node.Serving.{connect_and_receive}

-- The owner of the object, and the other nodes by their ids.
pub record World : Type 0 where
  pub owner : Node
  pub clients : ℕ → Node

abbrev pub put : (ℕ → Node) → ℕ → Node → ℕ → Node
put clients i n j = if i == j then n else clients j

-- What a log has posted, as it arrives at the other side, the oldest first.
abbrev pub sent : List Output → List Input
sent [] = []
sent (posted qpn imm x ∷ log) = sent log ++ arrives imm x ∷ []
sent (_ ∷ log) = sent log

-- A node calls another one, which serves the call: both run to their ends on what the other sends.
pub record Session {A : Type 0} (p : Platform) (fuel at_port : ℕ) (call : M A) (n s : Node) (a : A)
    (n' s' : Node) : Type 0 where
  pub calls : call (record n { script = connects true ∷ sent s'.log; log = [] }) ≡ ok (a, n')
  pub serves :
      connect_and_receive p fuel at_port (record s { script = accepts ∷ sent n'.log; log = [] })
      ≡ ok (tt, s')
  pub no_more : n'.script ≡ []

-- The calls in a log: whom a node has called, and what it has posted from then on until the next
-- call, the oldest first; `later` is what it has posted since.
abbrev pub calls_made : List Input → List Output → List (ℕ × List Input)
calls_made later [] = []
calls_made later (dialled to true ∷ log) = calls_made [] log ++ (to, later) ∷ []
calls_made later (posted qpn imm x ∷ log) = calls_made (arrives imm x ∷ later) log
calls_made later (_ ∷ log) = calls_made later log

-- What one node sends to have another one drop its copy.
abbrev pub invalidation : GlobalAddress → ℕ → List Input
invalidation g id =
    arrives (imm_code ImmData.invalidate) (address (sendable g id))
    ∷ arrives (imm_code ImmData.reset) (lock (record { id = id; state = unlocked }))
    ∷ []

-- The calls that have the nodes of a list drop their copies.
abbrev pub invalidations : GlobalAddress → ℕ → List ℕ → List (ℕ × List Input)
invalidations g id nodes = map (λ j. (j, invalidation g id)) nodes

-- The nodes of a list serve such calls, one after the other: `answers` is what the node that calls
-- them gets from them. Whether a node makes these calls is not said here, but where the relation is
-- used, of its log.
pub data Drops (p : Platform) (g : GlobalAddress) (id : ℕ)
    : List ℕ → (ℕ → Node) → List Input → (ℕ → Node) → Type 0 where
  no_one : {clients : ℕ → Node} → Drops p g id [] clients [] clients
  one :
      {nodes : List ℕ} {clients clients' : ℕ → Node} {answers : List Input} (j fuel : ℕ) (n' : Node)
      → connect_and_receive p fuel j
          (record (clients j) { script = accepts ∷ invalidation g id; log = [] })
        ≡ ok (tt, n')
      → Drops p g id nodes (put clients j n') answers clients'
      → Drops p g id (j ∷ nodes) clients (connects true ∷ (sent n'.log ++ answers)) clients'

-- What an observer sees: a node reads a value, or the owner writes one.
pub data Event : Type 0 where
  reads : ℕ → ℕ → Event
  writes : ℕ → Event

-- A read from the cache needs nobody else; one that misses calls the owner. A write of the owner makes
-- calls, and the nodes that it calls serve them on what it sends, and answer.
pub data Step (p : Platform) (g : GlobalAddress) : World → Event → World → Type 0 where
  reads_cached :
      {w : World} (i value : ℕ) (got : Ref) (n' n'' : Node)
      → i ≢ g.id
      → perform_read p g i (record (w.clients i) { script = [] }) ≡ ok (got, n')
      → data_of got n' ≡ ok (value, n'')
      → Step p g w (reads i value) (record w { clients = put w.clients i n'' })
  reads_owner :
      {w : World} (i value fuel : ℕ) (got : Ref) (n' n'' owner' : Node)
      → i ≢ g.id
      → Session p fuel port (perform_read p g i) (w.clients i) w.owner got n' owner'
      → data_of got n' ≡ ok (value, n'')
      → Step p g w (reads i value) (record { owner = owner'; clients = put w.clients i n'' })
  writes_owner :
      {w : World} (d : Data) (nodes : List ℕ) (answers : List Input) (ga : GlobalAddress)
      (owner' : Node) (clients' : ℕ → Node)
      → d.ga ≡ g
      → write_local d (record w.owner { script = answers; log = [] }) ≡ ok (ga, owner')
      → calls_made [] owner'.log ≡ invalidations g w.owner.id nodes
      → Drops p g w.owner.id nodes w.clients answers clients'
      → owner'.script ≡ []
      → Step p g w (writes d.value) (record { owner = owner'; clients = clients' })

-- A history of steps, with what is observed.
pub data History (p : Platform) (g : GlobalAddress) (w : World) : List Event → World → Type 0 where
  start : History p g w [] w
  next :
      {u v : World} (events : List Event) (e : Event)
      → History p g w events u
      → Step p g u e v
      → History p g w (events ++ e ∷ []) v
