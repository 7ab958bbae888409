-- ===== src/Cluster/Locked.antt =====
-- Whole operations of a node (`Node::read` and `Node::write` of src/api.cpp) that is neither the lock
-- node nor the owner: three sessions, with the lock node, with the owner, and with the lock node again.
use cachecoherence.Base.{
  ℕ, ◌+◌, ◌≤◌, ◌≡◌, ◌≢◌, refl, ◌∙◌, none, some, true, false, List, [], ◌∷◌, ◌++◌, arith, ok, inr,
}
use cachecoherence.Base.OrdMap
use cachecoherence.Base.OrdMap.{Above}
use cachecoherence.Defs.Address.{GlobalAddress, Platform, sendable}
use cachecoherence.Defs.Message.{
  SaveData, LockState, unlocked, shared_lock, Lock, shared, ImmData, imm_code,
}
use cachecoherence.Cache.{key}
use cachecoherence.Cache.Accounting.{with_item}
use cachecoherence.Locks.{lock_node, set_local}
use cachecoherence.Locks.Grants.{state_of, set_local-state_of}
use cachecoherence.Node.State.{
  address, lock, flag, word, Input, connects, accepts, arrives, Output, dialled, Node, M, ◌>>=◌,
  pure, step_on,
}
use cachecoherence.Node.Network.{port}
use cachecoherence.Node.Memory.{received, data_of, perform_read, set_lock, read}
use cachecoherence.Node.Serving.{connect_and_receive}
use cachecoherence.Node.Coherence.{IsIdle}
use cachecoherence.Node.Reading.{session, session_log, read_item, perform_read-miss}
use cachecoherence.Node.Locking.{set_lock_away}
use cachecoherence.Cluster.World.{sent}
use cachecoherence.Cluster.Sessions.{served_log, shared_with, read_messages, serve-read}

-- Which nodes have been called, the first one first.
abbrev pub called : List Output → List ℕ
called [] = []
called (dialled to b ∷ log) = called log ++ to ∷ []
called (_ ∷ log) = called log

-- An operation of a node: the lock node serves two sessions and the owner one in between, and each
-- side runs to its end on what the other sides send.
pub record Under {A : Type 0} (p : Platform) (call : M A) (n keeper owner : Node) (a : A)
    (n' keeper' owner' : Node) : Type 0 where
  pub between : Node
  pub asks : List Input
  pub works : List Input
  pub gives : List Input
  pub calls :
      call (record n {
        script =
            connects true
            ∷ (sent between.log
                ++ connects true ∷ (sent owner'.log ++ connects true ∷ sent keeper'.log));
        log = [];
      })
      ≡ ok (a, n')
  pub locks :
      connect_and_receive p 3 lock_node (record keeper { script = accepts ∷ asks; log = [] })
      ≡ ok (tt, between)
  pub serves :
      connect_and_receive p 3 port (record owner { script = accepts ∷ works; log = [] })
      ≡ ok (tt, owner')
  pub unlocks :
      connect_and_receive p 3 lock_node (record between { script = accepts ∷ gives; log = [] })
      ≡ ok (tt, keeper')
  pub messages : sent n'.log ≡ asks ++ (works ++ gives)
  pub order : called n'.log ≡ lock_node ∷ port ∷ lock_node ∷ []
  pub no_more : n'.script ≡ []

-- The messages of a lock request, and the lock node after it.
abbrev pub lock_messages : ℕ → ℕ → LockState → List Input
lock_messages asker i s =
    arrives (imm_code ImmData.locks) (lock (record { id = i; state = s }))
    ∷ arrives (imm_code ImmData.reset) (lock (record { id = asker; state = unlocked }))
    ∷ []

abbrev pub kept : Node → ℕ → LockState → Node
kept k i s = record k {
  locks = (set_local k.locks i s).1;
  handles = k.handles + 1 + 1 + 1 + 1;
  script = [];
  log = served_log k.handles lock_node (flag (set_local k.locks i s).0) [];
}

pub serve-lock :
    (p : Platform) (k : Node) (asker i : ℕ) (s : LockState)
    → k.id ≡ lock_node
    → connect_and_receive p 3 lock_node
        (record k { script = accepts ∷ lock_messages asker i s; log = [] })
      ≡ ok (tt, kept k i s)
unfolding connect_and_receive imm_code
serve-lock p k asker i s here = ground arith

-- A reader after its three sessions.
abbrev pub asked : Node → ℕ → LockState → Node
asked n i s = record n {
  handles = n.handles + 1 + 1;
  log = session_log n lock_node ImmData.locks (lock (record { id = i; state = s }));
}

abbrev fetched : Platform → GlobalAddress → ℕ → Node → Node
fetched p g v n = record n {
  cache = with_item p n.cache g (read_item p n g v);
  ticks = n.ticks + 1 + 1;
  handles = n.handles + 1 + 1;
  log = session_log n port ImmData.read (address (sendable g n.id));
}

-- A read as the chain of its calls.
read_calls :
    (p : Platform) (g : GlobalAddress) (n : Node)
    → read p g n
      ≡ (set_lock g.id shared_lock >>= λ got. elim got [
        | true ↦ perform_read p g n.id >>= λ result. set_lock g.id unlocked >>= λ u. data_of result
        | false ↦ pure 0
      ])
          n
unfolding read
read_calls p g n = refl

data_of_received : (v : ℕ) (n : Node) → data_of (received v) n ≡ ok (v, n)
unfolding data_of
data_of_received v n = refl

read_runs :
    (p : Platform) (g : GlobalAddress) (n : Node) (v : ℕ)
    → n.id ≢ lock_node
    → g.id ≢ n.id
    → OrdMap.find (key p g) n.cache.items ≡ none
    → g.size ≤ n.cache.max_size
    → g.size ≤ n.cache.available_size
    → read p g
        (record n { script = session (flag true) (session (word v) (session (flag true) [])) })
      ≡ ok (
        v,
        record (asked (fetched p g v (asked n g.id shared_lock)) g.id unlocked) { script = [] },
      )
read_runs p g n v away remote miss fits room =
    let rest = session (flag true) [] in
    read_calls p g (record n { script = session (flag true) (session (word v) rest) })
    ∙ step_on _ (set_lock_away n g.id shared_lock true (session (word v) rest) away) (
        step_on _
          (perform_read-miss p (asked n g.id shared_lock) g remote v n.id rest miss fits room)
          (step_on _
            (set_lock_away (fetched p g v (asked n g.id shared_lock)) g.id unlocked true [] away)
            (data_of_received v _)))

-- The lock node with nobody holding the lock of the object, and an owner that holds the object.
pub record Ready (g : GlobalAddress) (d : SaveData) (keeper owner : Node) : Type 0 where
  pub is_keeper : keeper.id ≡ lock_node
  pub sorted : Above 0 keeper.locks
  pub idle : IsIdle (state_of g.id keeper.locks)
  pub here : g.id ≡ owner.id
  pub stored : OrdMap.find g.ptr owner.memory ≡ some d
  pub valid : d.iscached ≤ 2

-- A node that is neither, and whose cache has room for the object but does not have it.
pub record Fetches (p : Platform) (g : GlobalAddress) (n : Node) : Type 0 where
  pub away : n.id ≢ lock_node
  pub remote : g.id ≢ n.id
  pub miss : OrdMap.find (key p g) n.cache.items ≡ none
  pub fits : g.size ≤ n.cache.max_size
  pub room : g.size ≤ n.cache.available_size

-- The lock after it has been taken and given back.
pub freed_again :
    (k : Node) (i : ℕ) (s : LockState)
    → Above 0 k.locks
    → IsIdle (state_of i k.locks)
    → ((set_local k.locks i s).0 ≡ true)
      × ((set_local (set_local k.locks i s).1 i unlocked).0 ≡ true)
      × (state_of i (set_local (set_local k.locks i s).1 i unlocked).1 ≡ some unlocked)
      × Above 0 (set_local (set_local k.locks i s).1 i unlocked).1
freed_again k i s a idle =
    let first = set_local-state_of k.locks i i s a in
    let second = set_local-state_of (set_local k.locks i s).1 i i unlocked first.2 in
    (ground (arith, first, idle), ground (arith, second), ground (arith, second), second.2)

-- A read of a node: the sessions run, the read returns the value, the owner has noted the reader, and
-- the lock is free again.
abbrev pub ReadsUnder :
    Platform → GlobalAddress → SaveData → Node → Node → Node → Node → Node → Node → Type 0
ReadsUnder p g d n keeper owner n' keeper' owner' =
    Under p (read p g) n keeper owner d.value n' keeper' owner'
    × (state_of g.id keeper'.locks ≡ some unlocked)
    × Ready g (record d { iscached = shared; sharer_nodes = d.sharer_nodes ++ n.id ∷ [] }) keeper'
        owner'

pub read-ReadsUnder :
    (p : Platform) (g : GlobalAddress) (d : SaveData) (n keeper owner : Node)
    → Ready g d keeper owner
    → Fetches p g n
    → (n' : Node) × (keeper' : Node) × (owner' : Node) × ReadsUnder p g d n keeper owner n' keeper'
        owner'
read-ReadsUnder p g d n keeper owner ready f =
    let quiet : Node = record n { log = [] } in
    let i = g.id in
    let between = kept keeper i shared_lock in
    let keeper' = kept between i unlocked in
    let (granted, given, free, ascends) =
      freed_again keeper i shared_lock ready.sorted ready.idle in
    let runs = read_runs p g quiet d.value f.away f.remote f.miss f.fits f.room in
    let object : SaveData = record d {
      iscached = shared;
      sharer_nodes = d.sharer_nodes ++ n.id ∷ [];
    } in
    let l : Lock = record { id = n.id; state = unlocked } in
    (
      record (asked (fetched p g d.value (asked quiet i shared_lock)) i unlocked) { script = [] },
      keeper',
      shared_with port owner g d n.id,
      (
        record {
          between = between;
          asks = lock_messages n.id i shared_lock;
          works = read_messages g n.id l;
          gives = lock_messages n.id i unlocked;
          calls = ground (arith, runs, granted, given);
          locks = serve-lock p keeper n.id i shared_lock ready.is_keeper;
          serves = serve-read p port owner g n.id l d ready.stored ready.here ready.valid 0;
          unlocks = serve-lock p between n.id i unlocked ready.is_keeper;
          messages = refl;
          order = refl;
          no_more = refl;
        },
        free,
        record {
          is_keeper = ready.is_keeper;
          sorted = ascends;
          idle = inr free;
          here = ready.here;
          stored = ground (arith, ready.stored, OrdMap.find-assign g.ptr g.ptr object owner.memory);
          valid = omega arith;
        },
      ),
    )
