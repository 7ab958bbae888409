-- ===== src/Node/Locking.antt =====
-- Locks through the node: on the lock node, and from another one over the network.
use cachecoherence.Base.{ℕ, ◌+◌, ◌≡◌, ◌≢◌, refl, some, Bool, true, List, ◌∷◌, arith, ok, Returns}
use cachecoherence.Defs.Address.{GlobalAddress, Platform}
use cachecoherence.Defs.Message.{LockState, exclusive, ImmData, imm_code}
use cachecoherence.Locks.{lock_node, set_local}
use cachecoherence.Locks.Grants.{state_of}
use cachecoherence.Node.State.{
  Payload, lock, flag, Input, arrives, Output, exchanged, posted, Connection, Node, M,
}
use cachecoherence.Node.Memory.{set_lock, read}
use cachecoherence.Node.Serving.{receive}
use cachecoherence.Node.Reading.{session, session_log}

-- On the lock node a request is decided by the table, with no communication.
pub set_lock-local :
    (n : Node) (i : ℕ) (s : LockState)
    → n.id ≡ lock_node
    → set_lock i s n
      ≡ ok ((set_local n.locks i s).0, record n { locks = (set_local n.locks i s).1 })
unfolding set_lock
set_lock-local n i s here = ground arith

pub set_lock_away :
    (n : Node) (i : ℕ) (s : LockState) (answer : Bool) (rest : List Input)
    → n.id ≢ lock_node
    → set_lock i s (record n { script = session (flag answer) rest })
      ≡ ok (
        answer,
        record n {
          handles = n.handles + 1 + 1;
          script = rest;
          log = session_log n lock_node ImmData.locks (lock (record { id = i; state = s }));
        },
      )
unfolding set_lock imm_code
set_lock_away n i s answer rest away = ground arith

-- The lock node serves the request, and the asking node gets the answer.
abbrev pub AsksKeeper :
    (ℕ → M (Unit {0})) → Platform → Node → Node → Connection → ℕ → LockState → List Input → Type 0
AsksKeeper serve p n keeper c i wanted rest =
    Returns
      (receive serve p c (record keeper {
        script =
            arrives (imm_code ImmData.locks) (lock (record { id = i; state = wanted }))
            ∷ keeper.script;
      }))
      λ served.
        (answer : Payload) × (log : List Output) × (served.1.log
          ≡ posted c.qpn (imm_code ImmData.default) answer ∷ log)
        × (served.1.locks ≡ (set_local keeper.locks i wanted).1)
        × Returns (set_lock i wanted (record n { script = session answer rest })) λ got.
          (got.0 ≡ (set_local keeper.locks i wanted).0)
          × (got.1.locks ≡ n.locks)
          × (got.1.log
              ≡ session_log n lock_node ImmData.locks (lock (record { id = i; state = wanted })))
          × (got.1.script ≡ rest)

-- On any other node a request is sent to the lock node, in a session of its own, and what is sent is
-- what the lock node gets: its answer is that of its table, and it then has the table after the
-- request; the asking node gets this answer, and its own table stays as it is.
pub set_lock-remote :
    (serve : ℕ → M (Unit {0})) (p : Platform) (n keeper : Node) (c : Connection) (s : ℕ) (i : ℕ)
    (wanted : LockState) (rest : List Input)
    → c.socket ≡ some s
    → keeper.id ≡ lock_node
    → n.id ≢ lock_node
    → AsksKeeper serve p n keeper c i wanted rest
unfolding receive imm_code
set_lock-remote serve p n keeper c s i wanted rest open_socket here away = (
  (
    (true, c),
    record keeper {
      locks = (set_local keeper.locks i wanted).1;
      log =
          posted c.qpn (imm_code ImmData.default) (flag (set_local keeper.locks i wanted).0)
          ∷ exchanged s
          ∷ keeper.log;
    },
  ),
  ground arith,
  (
    flag (set_local keeper.locks i wanted).0,
    exchanged s ∷ keeper.log,
    refl,
    refl,
    (
      _,
      set_lock_away n i wanted (set_local keeper.locks i wanted).0 rest away,
      (refl, refl, refl, refl),
    ),
  ),
)

-- A read that is refused the lock returns 0 and leaves the node as it was.
pub read_refused :
    (p : Platform) (n : Node) (g : GlobalAddress)
    → n.id ≡ lock_node
    → state_of g.id n.locks ≡ some exclusive
    → read p g n ≡ ok (0, n)
unfolding read set_local
read_refused p n g here held = ground arith
