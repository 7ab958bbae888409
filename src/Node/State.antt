-- ===== src/Node/State.antt =====
-- src/Node.h and src/Connection.h: the state of a node, and what it exchanges with its surroundings.
-- A node is run against a script of the events that it waits for, and leaves a log of its actions,
-- the newest first. The memory of the node maps a pointer to the `SaveData` that stands there.
use cachecoherence.Base.{
  ℕ, ◌+◌, List, [], ◌∷◌, Option, none, some, Bool, ok, stop, Stop, blocked, undefined, Run, ◌≡◌, ap,
  ◌∙◌,
}
use cachecoherence.Base.OrdMap
use cachecoherence.Base.OrdMap.{OrdMap}
use cachecoherence.Defs.Address.{SendGlobalAddr, GlobalAddress, Platform, of_sendable}
use cachecoherence.Defs.Message.{SendingData, SaveData, Lock}
use cachecoherence.Cache.{Cache}
use cachecoherence.Cache
use cachecoherence.Locks.{Locks}

-- What one side writes into the memory of the other. `address_head` is the first 18 bytes of a
-- `SendGlobalAddr`, without `srcID`.
pub data Payload : Type 0 where
  address : SendGlobalAddr → Payload
  address_head : GlobalAddress → Payload
  content : SendingData → Payload
  lock : Lock → Payload
  flag : Bool → Payload
  word : ℕ → Payload

-- What a node waits for: the result of a connection attempt, a peer that connects, a completed
-- receive with its immediate data and what the peer has written, the result of `malloc`, which is a
-- pointer and what its memory reads as.
pub data Input : Type 0 where
  connects : Bool → Input
  accepts : Input
  arrives : ℕ → Payload → Input
  allocates : Option (ℕ × SaveData) → Input

-- What a node does: queue pairs and sockets go by the number that they were created with.
pub data Output : Type 0 where
  dialled : ℕ → Bool → Output
  listened : ℕ → Output
  exchanged : ℕ → Output
  linked : ℕ → Output
  posted : ℕ → ℕ → Payload → Output
  reset : ℕ → Output
  closed : ℕ → Output
  asked : ℕ → Output
  freed : ℕ → Output

-- `Connection`; a socket that has been closed is `none`.
pub record Connection : Type 0 where
  pub qpn : ℕ
  pub socket : Option ℕ

-- `Node`; `ticks` counts the readings of the clock, `handles` the sockets and queue pairs made.
pub record Node : Type 0 where
  pub id : ℕ
  pub locks : Locks
  pub cache : Cache
  pub memory : OrdMap SaveData
  pub ticks : ℕ
  pub handles : ℕ
  pub script : List Input
  pub log : List Output

-- `Node::Node` before the given script
unfoldable pub new : List Input → Node
unfolding Cache.new
new script = record {
  id = 0;
  locks = [];
  cache = Cache.new;
  memory = [];
  ticks = 0;
  handles = 0;
  script = script;
  log = [];
}

abbrev pub M : Type 0 → Type 0
M A = Node → Run (A × Node)

abbrev pub pure : {A : Type 0} → A → M A
pure a n = ok (a, n)

infixl 5 ◌>>=◌ ◌>>◌
abbrev pub ◌>>=◌ : {A B : Type 0} → M A → (A → M B) → M B
◌>>=◌ m f n = elim (m n) [ ok (a, n') ↦ f a n' | stop s ↦ stop s ]

abbrev pub ◌>>◌ : {B : Type 0} → M (Unit {0}) → M B → M B
m >> k = m >>= λ _. k

-- One step of a chain.
pub step_on :
    {A B : Type 0} {x : Run (A × Node)} (k : A → M B) {a : A} {n' : Node} {r : Run (B × Node)}
    → x ≡ ok (a, n')
    → k a n' ≡ r
    → (elim x as (λ y. Run (B × Node)) [ ok (b, n) ↦ k b n | stop s ↦ stop s ]) ≡ r
step_on k e e' =
    ap (λ x. elim x as (λ y. Run (_ × Node)) [ ok (b, n) ↦ k b n | stop s ↦ stop s ]) e ∙ e'

-- One that stops.
pub stops :
    {A B : Type 0} {x : Run (A × Node)} (k : A → M B) {s : Stop}
    → x ≡ stop s
    → (elim x as (λ y. Run (B × Node)) [ ok (b, n) ↦ k b n | stop s' ↦ stop s' ]) ≡ stop s
stops {A} {B} k e =
    ap (λ x. elim x as (λ y. Run (B × Node)) [ ok (b, n) ↦ k b n | stop s' ↦ stop s' ]) e

abbrev pub halt : {A : Type 0} → Stop → M A
halt s n = stop s

abbrev pub get : M Node
get n = ok (n, n)

abbrev pub emit : Output → M (Unit {0})
emit o n = ok (tt, record n { log = o ∷ n.log })

-- A new socket or queue pair.
abbrev pub fresh : M ℕ
fresh n = ok (n.handles, record n { handles = n.handles + 1 })

-- `std::chrono::system_clock::now`
abbrev pub now : Platform → M ℕ
now p n = ok (p.clock n.ticks, record n { ticks = n.ticks + 1 })

-- Waiting takes the next event of the script; where another one is due, the node hangs.
unfoldable pub await_connect : M Bool
await_connect n = elim n.script [
  | connects b ∷ rest ↦ ok (b, record n { script = rest })
  | _ ↦ stop blocked
]

unfoldable pub await_accept : M (Unit {0})
await_accept n = elim n.script [
  | accepts ∷ rest ↦ ok (tt, record n { script = rest })
  | _ ↦ stop blocked
]

unfoldable pub await_message : M (ℕ × Payload)
await_message n = elim n.script [
  | arrives imm x ∷ rest ↦ ok ((imm, x), record n { script = rest })
  | _ ↦ stop blocked
]

unfoldable pub await_allocation : M (Option (ℕ × SaveData))
await_allocation n = elim n.script [
  | allocates r ∷ rest ↦ ok (r, record n { script = rest })
  | _ ↦ stop blocked
]

-- A read through a pointer, and a write of a whole `SaveData`; undefined where nothing was allocated.
unfoldable pub load : ℕ → M SaveData
load ptr n = elim (OrdMap.find ptr n.memory) [ none ↦ stop undefined | some d ↦ ok (d, n) ]

unfoldable pub store : ℕ → SaveData → M (Unit {0})
store ptr d n = elim (OrdMap.find ptr n.memory) [
  | none ↦ stop undefined
  | some _ ↦ ok (tt, record n { memory = OrdMap.assign ptr d n.memory })
]

-- The casts of a receive buffer to the type that the sender is taken to have written.
abbrev pub as_address : Payload → M SendGlobalAddr
as_address (address s) = pure s
as_address _ = halt undefined

abbrev pub as_global : Payload → M GlobalAddress
as_global (address s) = pure (of_sendable s)
as_global (address_head g) = pure g
as_global _ = halt undefined

abbrev pub as_content : Payload → M SendingData
as_content (content d) = pure d
as_content _ = halt undefined

abbrev pub as_lock : Payload → M Lock
as_lock (lock l) = pure l
as_lock _ = halt undefined

abbrev pub as_flag : Payload → M Bool
as_flag (flag b) = pure b
as_flag _ = halt undefined

abbrev pub as_word : Payload → M ℕ
as_word (word w) = pure w
as_word _ = halt undefined
