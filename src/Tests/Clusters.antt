-- ===== src/Tests/Clusters.antt =====
-- Several nodes around one object: a history, and the theorems at it.
use cachecoherence.Base.{ℕ, ◌≡◌, ◌≢◌, refl, sym, some, [], ◌∷◌, arith, inl, inr, List, ok}
use cachecoherence.Base.OrdMap
use cachecoherence.Cluster.World.{
  calls_made, invalidations, World, Drops, reads, writes, Step, History, start, next,
}
use cachecoherence.Cluster.Coherence.{IsCoherent}
use cachecoherence.Cluster.Progress.{new-IsCoherent, can_read, can_write}
use cachecoherence.Cluster.Register.{AcceptsAll, Step-Accepts, History-AcceptsAll}
use cachecoherence.Cluster.Freeing.{IsFreed, free-IsFreed}
use cachecoherence.Node.Memory.{free}
use cachecoherence.Cluster.Stuck.{LeftWaiting, write-LeftWaiting}
use cachecoherence.Cluster.Rewriting.{Rewritten, perform_write-Rewritten}
use cachecoherence.Cluster.Locked.{Under, Ready, Fetches}
use cachecoherence.Cluster.Elsewhere.{AllRead, AllRead-write}
use cachecoherence.Defs.Message.{SaveData, unlocked}
use cachecoherence.Cache.{key, add_cache_item, alter_cache_item}
use cachecoherence.Cache.Accounting.{with_item}
use cachecoherence.Locks.Grants.{state_of}
use cachecoherence.Node.State.{Input, Node}
use cachecoherence.Node.Writing.{write}
use cachecoherence.Node.Serving.{must_invalidate}
use cachecoherence.Node.Dialling.{answering}
use cachecoherence.Node.Stale.{write_item}
use cachecoherence.Node.Owning.{written}
use cachecoherence.Tests.Data.{
  platform, object, saved, saved_shared, server_with, client, keeper, connection, datum,
  empty_cache, no_service,
}

abbrev pub world : World
world = record { owner = server_with saved; clients = λ i. record client { id = i } }

world-IsCoherent : IsCoherent platform object 5 world
unfolding OrdMap.find
world-IsCoherent =
    new-IsCoherent platform object world saved refl refl (omega arith) (λ i. refl) (λ i. refl)

-- Node 1000 reads, and then the owner writes.
first_step : (w : World) × Step platform object world (reads 1000 5) w
first_step =
    can_read platform object 5 world world-IsCoherent 1000 (omega arith) (inr (omega arith))
      (omega arith)

second-IsCoherent : IsCoherent platform object 5 first_step.0
second-IsCoherent = (Step-Accepts first_step.1 5 world-IsCoherent).1

second_step :
    (w : World) × Step platform object first_step.0 (writes 77) w × IsCoherent platform object 77 w
second_step = can_write platform object 5 first_step.0 second-IsCoherent 77 8

history : History platform object world (reads 1000 5 ∷ writes 77 ∷ []) second_step.0
history =
    next (reads 1000 5 ∷ []) (writes 77) (next [] (reads 1000 5) start first_step.1) second_step.1

History-AcceptsAll_example :
    AcceptsAll 5 (reads 1000 5 ∷ writes 77 ∷ []) × IsCoherent platform object 77 second_step.0
History-AcceptsAll_example = History-AcceptsAll history 5 world-IsCoherent

can_read_example : (w : World) × Step platform object world (reads 1000 5) w
can_read_example =
    can_read platform object 5 world world-IsCoherent 1000 (omega arith) (inr (omega arith))
      (omega arith)

can_write_example :
    (w : World) × Step platform object world (writes 77) w × IsCoherent platform object 77 w
can_write_example = can_write platform object 5 world world-IsCoherent 77 8

-- An owner whose object two nodes have read, and a writer that is not one of them.
abbrev reluctant : Node
reluctant = record (server_with saved_shared) { handles = 10 }

abbrev writer : Node
writer = record client { id = 5000 }

saved_shared-Ready : Ready object saved_shared keeper reluctant
unfolding OrdMap.find
saved_shared-Ready = record {
  is_keeper = refl;
  sorted = tt;
  idle = inl refl;
  here = refl;
  stored = refl;
  valid = omega arith;
}

write-LeftWaiting_example :
    LeftWaiting no_service platform 3 connection datum writer keeper reluctant
      (answering (1 ∷ 1 ∷ []) [])
unfolding OrdMap.find must_invalidate alter_cache_item add_cache_item key
write-LeftWaiting_example =
    write-LeftWaiting no_service platform 3 connection 9 datum writer keeper reluctant saved_shared
      (with_item platform empty_cache object (write_item platform writer datum)) (1 ∷ 1 ∷ []) refl
      (omega arith) saved_shared-Ready (omega arith) (omega arith) refl refl refl refl

-- Node 1000 writes an object that it alone has read.
abbrev saved_alone : SaveData
saved_alone = record saved_shared { sharer_nodes = 1000 ∷ [] }

perform_write-Rewritten_example : Rewritten platform datum client (server_with saved_alone)
unfolding OrdMap.find must_invalidate alter_cache_item add_cache_item key
perform_write-Rewritten_example =
    perform_write-Rewritten platform datum client (server_with saved_alone)
      (with_item platform empty_cache object (write_item platform client datum)) saved_alone refl
      refl (omega arith) refl refl refl tt

-- Node 5000 writes the object of node 3000, and then the nodes 1000 and 4000 read it.
abbrev reader : Node
reader = record client { id = 4000 }

saved-Ready : Ready object saved keeper (server_with saved)
unfolding OrdMap.find
saved-Ready = record {
  is_keeper = refl;
  sorted = tt;
  idle = inl refl;
  here = refl;
  stored = refl;
  valid = omega arith;
}

any-Fetches : (i : ℕ) → i ≢ 2000 → i ≢ 3000 → Fetches platform object (record client { id = i })
unfolding OrdMap.find
any-Fetches i away remote = record {
  away = away;
  remote = λ e. remote (sym e);
  miss = refl;
  fits = omega arith;
  room = omega arith;
}

AllRead-write_example :
    (n' : Node) × (keeper' : Node) × (owner' : Node) × Under platform
      (write no_service platform datum)
      writer
      keeper
      (server_with saved)
      object
      n'
      keeper'
      owner'
    × (state_of 3000 keeper'.locks ≡ some unlocked)
    × AllRead platform object (written datum 5000) (client ∷ reader ∷ []) keeper' owner'
unfolding must_invalidate
AllRead-write_example =
    AllRead-write no_service platform datum writer keeper (server_with saved) saved saved-Ready refl
      (any-Fetches 5000 (omega arith) (omega arith)) (client ∷ reader ∷ [])
      (
        any-Fetches 1000 (omega arith) (omega arith),
        (any-Fetches 4000 (omega arith) (omega arith), tt),
      )

-- An owner whose object two nodes have read frees it.
abbrev shared_world : World
shared_world = record { owner = reluctant; clients = λ i. record client { id = i } }

shared_world-IsCoherent : IsCoherent platform object 5 shared_world
unfolding OrdMap.find
shared_world-IsCoherent =
    new-IsCoherent platform object shared_world saved_shared refl refl (omega arith) (λ i. refl)
      (λ i. refl)

free-IsFreed_example :
    (answers : List Input) × (owner' : Node) × (clients' : ℕ → Node) × Drops platform object 3000
      shared_world-IsCoherent.object.sharer_nodes shared_world.clients answers clients'
    × (free object (record reluctant { script = answers; log = [] })
        ≡ ok (record object { ptr = 0; size = 0 }, owner'))
    × (calls_made [] owner'.log
        ≡ invalidations object shared_world.owner.id shared_world-IsCoherent.object.sharer_nodes)
    × (owner'.script ≡ [])
    × IsFreed platform object shared_world (record { owner = owner'; clients = clients' })
free-IsFreed_example =
    free-IsFreed platform object 5 shared_world shared_world-IsCoherent (omega arith, tt)
      (omega arith)
