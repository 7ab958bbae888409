-- ===== src/Tests/Locking.antt =====
-- The lock table: its theorems at concrete inputs.
use cachecoherence.Base.{
  ◌+◌, ◌≤◌, ◌≡◌, refl, [], ◌∷◌, arith, false, some, ◌↔◌, ◌&&◌, ◌==◌, if◌then◌else◌,
}
use cachecoherence.Base.OrdMap
use cachecoherence.Base.OrdMap.{Above}
use cachecoherence.Defs.Message.{shared_lock, exclusive}
use cachecoherence.Locks.{Locks, set_local}
use cachecoherence.Locks.Grants.{
  Refused, state_of, set_local-state_of, Holding, Reach, ReachSolo, here, next, write_begins,
  ReachSolo-alone, Reach-overlap,
}

abbrev table : Locks
table = (3000, shared_lock) ∷ []

abbrev unheld : Holding
unheld = record { locks = []; readers = 0; writers = 0 }

abbrev held_twice : Holding
held_twice = record { locks = table; readers = 2; writers = 0 }

set_local-state_of_example :
    let r = set_local table 3000 exclusive in
    ((r.0 ≡ false) ↔ Refused exclusive (state_of 3000 table))
    × (state_of 4000 r.1 ≡ (if r.0 && (3000 == 4000) then some exclusive else state_of 4000 table))
    × Above 0 r.1
set_local-state_of_example = set_local-state_of table 3000 4000 exclusive (omega arith, tt)

one_writer : Holding
one_writer = record { locks = (set_local [] 3000 exclusive).1; readers = 0; writers = 1 }

one_writer-ReachSolo : ReachSolo 3000 unheld one_writer
unfolding one_writer set_local OrdMap.find
one_writer-ReachSolo = next here (write_begins refl) (omega arith)

ReachSolo-alone_example : one_writer.readers + one_writer.writers ≤ 1
ReachSolo-alone_example =
    ReachSolo-alone 3000 unheld one_writer (tt, refl, refl) one_writer-ReachSolo

Reach-overlap_example : (u : Holding) × Reach 3000 held_twice u × (1 ≤ u.readers) × (u.writers ≡ 1)
Reach-overlap_example = Reach-overlap 3000 held_twice (omega arith, tt) (omega arith)
