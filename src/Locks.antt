-- ===== src/Locks.antt =====
-- The lock table of the lock node: the branch of `Node::setLock` (src/api.cpp) that runs where the
-- node's id is `defs::locknode`. One lock stands for all the data of a node, by the node's id.
pub mod Grants
use cachecoherence.Base.{ℕ, Option, none, some, Bool, true, false}
use cachecoherence.Base.OrdMap
use cachecoherence.Base.OrdMap.{OrdMap}
use cachecoherence.Defs.Message.{LockState, unlocked, shared_lock, exclusive}

-- `defs::locknode`
abbrev pub lock_node : ℕ
lock_node = 2000

abbrev pub Locks : Type 0
Locks = OrdMap LockState

-- The comparison of the wanted state with the existing one: is the request granted?
unfoldable pub granted : LockState → LockState → Bool
granted unlocked existing = true
granted exclusive unlocked = true
granted exclusive _ = false
granted shared_lock exclusive = false
granted shared_lock _ = true

-- `Node::setLock` on the lock node: the new table, and the result.
unfoldable pub set_local : Locks → ℕ → LockState → Bool × Locks
unfolding granted
set_local locks lock_id state = elim (OrdMap.find lock_id locks) [
  | none ↦ (true, OrdMap.insert lock_id state locks)
  | some existing ↦ elim (granted state existing) [
    | true ↦ (true, OrdMap.assign lock_id state locks)
    | false ↦ (false, locks)
  ]
]
