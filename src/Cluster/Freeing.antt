-- ===== src/Cluster/Freeing.antt =====
-- `Node::Free` of src/api.cpp on the owner of an object that other nodes have read.
use cachecoherence.Base.{
  ℕ, suc, ◌≡◌, ◌≢◌, refl, none, some, true, List, [], ◌∷◌, arith, ok, stop, undefined, length, inl,
  inr, Option-cases,
}
use cachecoherence.Base.OrdMap
use cachecoherence.Base.OrdMap.{Above}
use cachecoherence.Defs.Address.{GlobalAddress, Platform, sendable}
use cachecoherence.Defs.Message.{SaveData, Lock, imm_code}
use cachecoherence.Node.State.{accepts, Input, freed, Node}
use cachecoherence.Node.Network.{port}
use cachecoherence.Node.Memory.{free, is_empty}
use cachecoherence.Node.Serving.{connect_and_receive}
use cachecoherence.Node.Dialling.{answering, told, handles_after, broadcast_invalidations-told}
use cachecoherence.Cluster.World.{World, Drops, calls_made, invalidations}
use cachecoherence.Cluster.Calls.{calls_made-told}
use cachecoherence.Cluster.Sessions.{read_messages}
use cachecoherence.Cluster.Coherence.{IsCoherent, copy}
use cachecoherence.Cluster.Invalidation.{Drops-IsDropped}
use cachecoherence.Cluster.Progress.{tell}

-- The owner after it has freed an object.
abbrev pub without : Node → GlobalAddress → SaveData → List Input → Node
without n g d rest = record n {
  memory = OrdMap.erase g.ptr n.memory;
  handles = handles_after n.handles d.sharer_nodes;
  script = rest;
  log = freed g.ptr ∷ told n.id n.handles g d.sharer_nodes n.log;
}

answering-empty :
    (nodes removed : List ℕ) (rest : List Input)
    → length removed ≡ length nodes
    → is_empty nodes ≡ true
    → (nodes ≡ []) × (answering removed rest ≡ rest)
answering-empty [] [] rest e empty = (refl, refl)
answering-empty [] (r ∷ removed) rest e empty = absurd (omega arith)
answering-empty (n ∷ nodes) removed rest e empty = absurd (ground arith)

free-without :
    (n : Node) (g : GlobalAddress) (d : SaveData) (removed : List ℕ) (rest : List Input)
    → g.id ≡ n.id
    → g.ptr ≢ 0
    → OrdMap.find g.ptr n.memory ≡ some d
    → length removed ≡ length d.sharer_nodes
    → free g (record n { script = answering removed rest })
      ≡ ok (record g { ptr = 0; size = 0 }, without n g d rest)
unfolding free
free-without n g d removed rest here some_ptr stored e = ground (
  arith,
  answering-empty d.sharer_nodes removed rest e,
  broadcast_invalidations-told d.sharer_nodes removed g n rest e,
)

-- A node that is called to read what it has freed reads through the dangling pointer.
serve-freed :
    (p : Platform) (n : Node) (g : GlobalAddress) (i : ℕ) (l : Lock) (fuel : ℕ)
    → g.id ≡ n.id
    → OrdMap.find g.ptr n.memory ≡ none
    → connect_and_receive p
        (suc (suc fuel))
        port
        (record n { script = accepts ∷ read_messages g i l; log = [] })
      ≡ stop undefined
unfolding connect_and_receive imm_code sendable
serve-freed p n g i l fuel here gone = ground arith

-- What is left of an object: the others are as they were, nobody has a copy, and a node that asks the
-- owner for it makes the owner read freed memory.
pub record IsFreed (p : Platform) (g : GlobalAddress) (w w' : World) : Type 0 where
  pub gone : OrdMap.find g.ptr w'.owner.memory ≡ none
  pub others :
      (ptr : ℕ) → ptr ≢ g.ptr → OrdMap.find ptr w'.owner.memory ≡ OrdMap.find ptr w.owner.memory
  pub no_copy : (i : ℕ) → copy p g (w'.clients i) ≡ none
  pub dangling :
      (i : ℕ) (l : Lock) (fuel : ℕ)
      → connect_and_receive p
          (suc (suc fuel))
          port
          (record w'.owner { script = accepts ∷ read_messages g i l; log = [] })
        ≡ stop undefined

-- From a world in which every copy has the value of the object and is known to its owner, whose memory
-- has one entry for each pointer, in order, and where the object's pointer is not null, the owner can
-- free the object: it calls the nodes that it has noted, which serve what it sends and answer, and
-- `Free` ends and returns a null address. Then the object is gone from the owner's memory and every other one is as it was;
-- nobody has a copy; and whoever asks the owner for the object makes it read freed memory.
pub free-IsFreed :
    (p : Platform) (g : GlobalAddress) (v : ℕ) (w : World) (c : IsCoherent p g v w)
    → Above 0 w.owner.memory
    → g.ptr ≢ 0
    → (answers : List Input) × (owner' : Node) × (clients' : ℕ → Node) × Drops p g w.owner.id
        c.object.sharer_nodes w.clients answers clients'
      × (free g (record w.owner { script = answers; log = [] })
          ≡ ok (record g { ptr = 0; size = 0 }, owner'))
      × (calls_made [] owner'.log ≡ invalidations g w.owner.id c.object.sharer_nodes)
      × (owner'.script ≡ [])
      × IsFreed p g w (record { owner = owner'; clients = clients' })
free-IsFreed p g v w c a some_ptr =
    let (removed, clients', each, drops) = tell p g w.owner.id c.object.sharer_nodes w.clients in
    let dropped = Drops-IsDropped drops c.sorted in
    let owner' = without (record w.owner { log = [] }) g c.object [] in
    let gone : OrdMap.find g.ptr owner'.memory ≡ none =
      ground (arith, OrdMap.find-erase g.ptr g.ptr 0 w.owner.memory a) in
    (
      answering removed [],
      owner',
      clients',
      drops,
      free-without (record w.owner { log = [] }) g c.object removed [] c.here some_ptr c.stored
          each,
      calls_made-told w.owner.id w.owner.handles g c.object.sharer_nodes [],
      refl,
      record {
        gone = gone;
        others = λ ptr other. ground (arith, OrdMap.find-erase ptr g.ptr 0 w.owner.memory a, other);
        no_copy = λ i. elim (Option-cases (copy p g (w.clients i))) [
          | inl absent ↦ dropped.gone i (inr absent)
          | inr (it, held) ↦ dropped.gone i (inl (c.copies i it held).1)
        ];
        dangling = λ i l fuel. serve-freed p owner' g i l fuel c.here gone;
      },
    )
