-- ===== src/Node/Coherence.antt =====
-- What a read returns after a write: on the owner of the data, and on a node with a copy.
use cachecoherence.Base.{
  ℕ, ◌≤◌, ◌≡◌, refl, Option, none, some, true, List, [], ◌∷◌, arith, ok, Returns, ltb, leb,
  if◌then◌else◌, length, Run-cases, inl, not, ◌&&◌, inr, ◌⊎◌,
}
use cachecoherence.Base.OrdMap
use cachecoherence.Base.OrdMap.{Above}
use cachecoherence.Defs.Address.{GlobalAddress, Platform}
use cachecoherence.Defs.Message.{
  Data, SaveData, LockState, unlocked, shared_lock, exclusive, unshared,
}
use cachecoherence.Locks.{Locks, lock_node, set_local}
use cachecoherence.Locks.Grants.{state_of, set_local-state_of}
use cachecoherence.Node.State.{Input, Node, M}
use cachecoherence.Node.Memory.{is_empty, read}
use cachecoherence.Node.Network.{broadcast_invalidations}
use cachecoherence.Node.Writing.{write, write_local}
use cachecoherence.Node.Dialling.{
  answering, told, handles_after, broadcast_invalidations-told, broadcast_invalidations-each,
}

-- The nodes that a local write tells to drop their copies.
unfoldable pub to_tell : SaveData → List ℕ
to_tell old =
    if leb 0 old.iscached && (not (is_empty old.sharer_nodes) && ltb old.iscached 3)
    then old.sharer_nodes
    else []

abbrev pub stored_locally : Node → Data → SaveData
stored_locally n d = record {
  value = d.value;
  iscached = unshared;
  owner_node = n.id;
  sharer_nodes = [];
}

answering-nil :
    (removed : List ℕ) (rest : List Input) → length removed ≡ 0 → answering removed rest ≡ rest
answering-nil [] rest e = refl
answering-nil (r ∷ removed) rest e = absurd (omega arith)

-- A local write has the sharers drop their copies, in order, before it stores the data.
pub write_local-told :
    (n : Node) (d : Data) (old : SaveData) (removed : List ℕ) (rest : List Input)
    → OrdMap.find d.ga.ptr n.memory ≡ some old
    → length removed ≡ length (to_tell old)
    → write_local d (record n { script = answering removed rest })
      ≡ ok (
        d.ga,
        record n {
          memory = OrdMap.assign d.ga.ptr (stored_locally n d) n.memory;
          handles = handles_after n.handles (to_tell old);
          script = rest;
          log = told n.id n.handles d.ga (to_tell old) n.log;
        },
      )
unfolding write_local to_tell
write_local-told n d old removed rest stored e = ground (
  arith,
  answering-nil removed rest,
  broadcast_invalidations-told old.sharer_nodes removed d.ga n rest,
)

answering-done : (removed : List ℕ) → answering removed [] ≡ [] → length removed ≡ 0
answering-done [] e = refl
answering-done (r ∷ removed) e = absurd (ground (arith, e))

-- A local write that ends, on answers that it uses up, has told as many nodes as have answered.
pub write_local-each :
    (n n' : Node) (d : Data) (old : SaveData) (removed : List ℕ) (ga : GlobalAddress)
    → OrdMap.find d.ga.ptr n.memory ≡ some old
    → write_local d (record n { script = answering removed [] }) ≡ ok (ga, n')
    → n'.script ≡ []
    → length removed ≡ length (to_tell old)
unfolding write_local to_tell
write_local-each n n' d old removed ga stored runs done =
    let told =
      broadcast_invalidations old.sharer_nodes d.ga (record n { script = answering removed [] }) in
    elim (Run-cases told) [
      | inl ((x, n₁), ends) ↦ ground (
        arith,
        stored,
        runs,
        done,
        ends,
        answering-done removed,
        broadcast_invalidations-each old.sharer_nodes removed d.ga n n₁ ends,
      )
      | inr (why, stops) ↦ ground (arith, stored, runs, done, stops, answering-done removed)
    ]

-- The table after a lock has been taken and given back.
abbrev pub after_write : Locks → ℕ → Locks
after_write locks i = (set_local (set_local locks i exclusive).1 i unlocked).1

abbrev pub IsIdle : Option LockState → Type 0
IsIdle s = (s ≡ none) ⊎ (s ≡ some unlocked)

pub exclusive_granted :
    (locks : Locks) (i : ℕ)
    → Above 0 locks
    → IsIdle (state_of i locks)
    → (set_local locks i exclusive).0 ≡ true
exclusive_granted locks i a idle = ground (arith, set_local-state_of locks i i exclusive a)

pub shared_granted :
    (locks : Locks) (i : ℕ)
    → Above 0 locks
    → IsIdle (state_of i locks)
    → (set_local locks i shared_lock).0 ≡ true
shared_granted locks i a idle = ground (arith, set_local-state_of locks i i shared_lock a)

pub state_of-unlocked :
    (locks : Locks) (i : ℕ)
    → Above 0 locks
    → (state_of i (set_local locks i unlocked).1 ≡ some unlocked)
      × Above 0 (set_local locks i unlocked).1
state_of-unlocked locks i a = ground (arith, set_local-state_of locks i i unlocked a)

-- The node after a write on the lock node, which owns the data.
abbrev pub wrote : Node → Data → SaveData → List Input → Node
wrote n d old rest = record n {
  locks = after_write n.locks d.ga.id;
  memory = OrdMap.assign d.ga.ptr (stored_locally n d) n.memory;
  handles = handles_after n.handles (to_tell old);
  script = rest;
  log = told n.id n.handles d.ga (to_tell old) n.log;
}

pub write-wrote :
    (serve : ℕ → M (Unit {0})) (p : Platform) (n : Node) (d : Data) (old : SaveData)
    (removed : List ℕ) (rest : List Input)
    → n.id ≡ lock_node
    → d.ga.id ≡ n.id
    → Above 0 n.locks
    → IsIdle (state_of d.ga.id n.locks)
    → OrdMap.find d.ga.ptr n.memory ≡ some old
    → length removed ≡ length (to_tell old)
    → write serve p d (record n { script = answering removed rest }) ≡ ok (d.ga, wrote n d old rest)
unfolding write
write-wrote serve p n d old removed rest here local a idle stored e = ground (
  arith,
  exclusive_granted n.locks d.ga.id a idle,
  write_local-told (record n { locks = (set_local n.locks d.ga.id exclusive).1 }) d old removed rest
      stored e,
)

-- A read of data that the lock node owns, while nobody holds the lock.
pub read-local :
    (p : Platform) (n : Node) (g : GlobalAddress) (d : SaveData)
    → n.id ≡ lock_node
    → g.id ≡ n.id
    → Above 0 n.locks
    → IsIdle (state_of g.id n.locks)
    → OrdMap.find g.ptr n.memory ≡ some d
    → d.iscached ≤ 2
    → read p g n
      ≡ ok (
        d.value,
        record n { locks = (set_local (set_local n.locks g.id shared_lock).1 g.id unlocked).1 },
      )
unfolding read
read-local p n g d here local a idle stored valid =
    ground (arith, shared_granted n.locks g.id a idle)

-- The write succeeds, and a read after it gets the data.
abbrev pub ReadsBack :
    (ℕ → M (Unit {0})) → Platform → Node → Data → SaveData → List ℕ → List Input → Type 0
ReadsBack serve p n d old removed rest =
    Returns (write serve p d (record n { script = answering removed rest })) λ w.
      (w.0 ≡ d.ga)
      × (w.1.log ≡ told n.id n.handles d.ga (to_tell old) n.log)
      × (state_of d.ga.id w.1.locks ≡ some unlocked)
      × Returns (read p d.ga w.1) λ r.
        (r.0 ≡ d.value) × (r.1.memory ≡ w.1.memory) × (state_of d.ga.id r.1.locks ≡ some unlocked)

-- On the lock node, for data that it owns and a lock that nobody holds: a write has the sharers drop
-- their copies, in order, and a read after it returns the data written; the lock is free after both.
pub read-write :
    (serve : ℕ → M (Unit {0})) (p : Platform) (n : Node) (d : Data) (old : SaveData)
    (removed : List ℕ) (rest : List Input)
    → n.id ≡ lock_node
    → d.ga.id ≡ n.id
    → Above 0 n.locks
    → IsIdle (state_of d.ga.id n.locks)
    → OrdMap.find d.ga.ptr n.memory ≡ some old
    → length removed ≡ length (to_tell old)
    → ReadsBack serve p n d old removed rest
read-write serve p n d old removed rest here local a idle stored e =
    let i = d.ga.id in
    let taken = set_local-state_of n.locks i i exclusive a in
    let freed = state_of-unlocked (set_local n.locks i exclusive).1 i taken.2 in
    let shared = set_local-state_of (after_write n.locks i) i i shared_lock freed.1 in
    (
      _,
      write-wrote serve p n d old removed rest here local a idle stored e,
      (
        refl,
        refl,
        freed.0,
        (
          _,
          read-local p (wrote n d old rest) d.ga (stored_locally n d) here local freed.1
              (inr freed.0)
              (ground (arith, OrdMap.find-assign d.ga.ptr d.ga.ptr (stored_locally n d) n.memory))
              (omega arith),
          (
            refl,
            refl,
            (state_of-unlocked (set_local (after_write n.locks i) i shared_lock).1 i shared.2).0,
          ),
        ),
      ),
    )
