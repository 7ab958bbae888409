-- ===== src/Locks/Grants.antt =====
-- Which requests the lock node grants, what a grant changes, and how clients can hold the lock.
use cachecoherence.Base.{
  ℕ, ◌+◌, ◌-◌, ◌≤◌, ◌<◌, ◌≡◌, refl, Option, some, true, false, ◌&&◌, arith, ◌==◌, if◌then◌else◌,
  ◌⊎◌, inl, ◌↔◌,
}
use cachecoherence.Base.OrdMap
use cachecoherence.Base.OrdMap.{Above}
use cachecoherence.Defs.Message.{LockState, unlocked, shared_lock, exclusive}
use cachecoherence.Locks.{Locks, set_local}

-- What a table says of a lock, before anyone has asked for it: no state.
abbrev pub state_of : ℕ → Locks → Option LockState
state_of i locks = OrdMap.find i locks

-- When a request is refused.
abbrev pub Refused : LockState → Option LockState → Type 0
Refused s before =
    ((s ≡ exclusive) × ((before ≡ some shared_lock) ⊎ (before ≡ some exclusive)))
    ⊎ ((s ≡ shared_lock) × (before ≡ some exclusive))

answer-Refused :
    (locks : Locks) (i : ℕ) (s : LockState)
    → ((set_local locks i s).0 ≡ false) ↔ Refused s (state_of i locks)
unfolding set_local
answer-Refused locks i unlocked = ground arith
answer-Refused locks i shared_lock = ground arith
answer-Refused locks i exclusive = ground arith

state_of-set_local :
    (locks : Locks) (i j : ℕ) (s : LockState)
    → Above 0 locks
    → let (answer, locks') = set_local locks i s in
      state_of j locks' ≡ (if answer && (i == j) then some s else state_of j locks)
unfolding set_local
state_of-set_local locks i j s a =
    ground (arith, OrdMap.find-insert j i s 0 locks a, OrdMap.find-assign j i s locks)

set_local-Above :
    (locks : Locks) (i : ℕ) (s : LockState) → Above 0 locks → Above 0 (set_local locks i s).1
unfolding set_local
set_local-Above locks i s a =
    ground
      (arith, OrdMap.insert-Above i s 0 locks (omega arith) a, OrdMap.assign-Above i s 0 locks a)

-- A request is refused exactly when it is for an exclusive lock and the lock is held, or for a
-- shared lock and the lock is exclusive. A granted request sets the state of its own lock, one that
-- is refused sets none, and no request touches another lock.
pub set_local-state_of :
    (locks : Locks) (i j : ℕ) (s : LockState)
    → Above 0 locks
    → let (answer, locks') = set_local locks i s in
      ((answer ≡ false) ↔ Refused s (state_of i locks))
      × (state_of j locks' ≡ (if answer && (i == j) then some s else state_of j locks))
      × Above 0 locks'
set_local-state_of locks i j s a =
    (answer-Refused locks i s, state_of-set_local locks i j s a, set_local-Above locks i s a)

-- Clients of one lock: how many are between a granted request and their release, as `Node::read`
-- and `Node::write` make them.
pub record Holding : Type 0 where
  pub locks : Locks
  pub readers : ℕ
  pub writers : ℕ

-- A client asks, and goes on if the request is granted; a client that holds the lock gives it back.
pub data Step (i : ℕ) (t : Holding) : Holding → Type 0 where
  read_begins :
      (set_local t.locks i shared_lock).0 ≡ true
      → Step i t (record t { locks = (set_local t.locks i shared_lock).1; readers = t.readers + 1 })
  read_ends :
      0 < t.readers
      → Step i t (record t { locks = (set_local t.locks i unlocked).1; readers = t.readers - 1 })
  write_begins :
      (set_local t.locks i exclusive).0 ≡ true
      → Step i t (record t { locks = (set_local t.locks i exclusive).1; writers = t.writers + 1 })
  write_ends :
      0 < t.writers
      → Step i t (record t { locks = (set_local t.locks i unlocked).1; writers = t.writers - 1 })

-- Runs of any length.
pub data Reach (i : ℕ) (s : Holding) : Holding → Type 0 where
  here : Reach i s s
  next : {t u : Holding} → Reach i s t → Step i t u → Reach i s u

-- Runs in which no two readers overlap.
pub data ReachSolo (i : ℕ) (s : Holding) : Holding → Type 0 where
  here : ReachSolo i s s
  next : {t u : Holding} → ReachSolo i s t → Step i t u → u.readers ≤ 1 → ReachSolo i s u

-- Nobody holds the lock.
abbrev pub IsFree : Holding → Type 0
IsFree t = Above 0 t.locks × (t.readers ≡ 0) × (t.writers ≡ 0)

-- The table knows who holds the lock.
abbrev Knows : Option LockState → ℕ → ℕ → Type 0
Knows s readers writers =
    ((readers ≡ 0) × (writers ≡ 0))
    ⊎ (((readers ≡ 1) × (writers ≡ 0) × (s ≡ some shared_lock))
        ⊎ ((readers ≡ 0) × (writers ≡ 1) × (s ≡ some exclusive)))

record IsKnown (i : ℕ) (t : Holding) : Type 0 where
  sorted : Above 0 t.locks
  known : Knows (state_of i t.locks) t.readers t.writers

Step-IsKnown : {i : ℕ} {t u : Holding} → Step i t u → u.readers ≤ 1 → IsKnown i t → IsKnown i u
Step-IsKnown {i} {t} (read_begins e) r k =
    ground (arith, set_local-state_of t.locks i i shared_lock k.sorted)
Step-IsKnown {i} {t} (read_ends e) r k =
    ground (arith, set_local-state_of t.locks i i unlocked k.sorted)
Step-IsKnown {i} {t} (write_begins e) r k =
    ground (arith, set_local-state_of t.locks i i exclusive k.sorted)
Step-IsKnown {i} {t} (write_ends e) r k =
    ground (arith, set_local-state_of t.locks i i unlocked k.sorted)

Reach-IsKnown : {i : ℕ} {s t : Holding} → IsKnown i s → ReachSolo i s t → IsKnown i t
Reach-IsKnown k here = k
Reach-IsKnown k (next r st solo) = Step-IsKnown st solo (Reach-IsKnown k r)

-- As long as no two readers overlap, a client that holds the lock is alone.
pub ReachSolo-alone :
    (i : ℕ) (s t : Holding) → IsFree s → ReachSolo i s t → t.readers + t.writers ≤ 1
ReachSolo-alone i s t free r =
    let k =
      Reach-IsKnown {i = i} {s = s} {t = t}
        (record { sorted = free.0; known = inl (free.1, free.2) }) r in
    ground (arith, k.known)

-- The lock does not count its readers: where two of them hold it, the first one to leave opens it,
-- and a writer is admitted beside the other.
pub Reach-overlap :
    (i : ℕ) (t : Holding)
    → Above 0 t.locks
    → 2 ≤ t.readers
    → (u : Holding) × Reach i t u × (1 ≤ u.readers) × (u.writers ≡ t.writers + 1)
Reach-overlap i t a two =
    let opened = (set_local t.locks i unlocked).1 in
    let left : Holding = record t { locks = opened; readers = t.readers - 1 } in
    let before = set_local-state_of t.locks i i unlocked a in
    let admitted : (set_local opened i exclusive).0 ≡ true =
      ground (arith, before, set_local-state_of opened i i exclusive before.2) in
    (
      record left { locks = (set_local opened i exclusive).1; writers = t.writers + 1 },
      next (next here (read_ends (omega arith))) (write_begins admitted),
      omega arith,
      refl,
    )
