-- ===== src/App/OnNode.antt =====
-- The memory of a single node as the table's memory: the lock node, which owns what it allocates and
-- has no other node to talk to. The allocator gives pointers that are not in use, other than null,
-- to memory that reads as `fresh`, whatever that is, as long as it does not read as shared.
use cachecoherence.Base.{
  ℕ, zero, suc, ◌+◌, ◌%◌, ◌^◌, ◌≤◌, ◌<◌, ◌≡◌, ◌≢◌, refl, ap, sym, ◌∙◌, Option, none, some, [], ◌∷◌,
  arith, ◌==◌, if◌then◌else◌, length, Returns, Run, ok, Option-cases, inl, inr,
}
use cachecoherence.Base.OrdMap
use cachecoherence.Base.OrdMap.{OrdMap, Above}
use cachecoherence.Defs.Address.{GlobalAddress, Platform}
use cachecoherence.Defs.Message.{Data, SaveData, shared_lock, exclusive}
use cachecoherence.Cache.{Cache}
use cachecoherence.Locks.{lock_node}
use cachecoherence.Locks.Grants.{state_of}
use cachecoherence.Node.State.{allocates, asked, freed, Node, M}
use cachecoherence.Node.Memory as NodeMemory
use cachecoherence.Node.Memory.{save_data_size}
use cachecoherence.Node.Writing
use cachecoherence.Node.Coherence.{IsIdle, to_tell, stored_locally, wrote, write-wrote, read-local}
use cachecoherence.Node.Keeping.{after_lock-IsIdle}
use cachecoherence.App.Interface.{Memory}

abbrev value_of : Option SaveData → Option ℕ
value_of none = none
value_of (some d) = some d.value

-- The word behind an address of the node's own.
abbrev pub content : Node → GlobalAddress → Option ℕ
content n g = if g.id == lock_node then value_of (OrdMap.find g.ptr n.memory) else none

-- The node between two operations of its only client, with a cache that these leave alone.
pub record IsQuiet (c : Cache) (n : Node) : Type 0 where
  pub is_keeper : n.id ≡ lock_node
  pub sorted : Above 0 n.locks
  pub idle : (j : ℕ) → IsIdle (state_of j n.locks)
  pub cached : n.cache ≡ c
  pub ordered : Above 0 n.memory
  pub no_null : OrdMap.find 0 n.memory ≡ none
  pub unshared :
      (ptr : ℕ) (d : SaveData)
      → OrdMap.find ptr n.memory ≡ some d
      → (d.iscached ≤ 2) × (d.sharer_nodes ≡ [])

-- `Node::Free` of an address of the node's own that nobody shares.
pub free-local :
    (n : Node) (g : GlobalAddress) (d : SaveData)
    → g.id ≡ n.id
    → OrdMap.find g.ptr n.memory ≡ some d
    → d.sharer_nodes ≡ []
    → 0 < g.ptr
    → (r : GlobalAddress) × (n' : Node) × (NodeMemory.free g n ≡ ok (r, n'))
      × (n'.memory ≡ OrdMap.erase g.ptr n.memory)
      × (n'.locks ≡ n.locks)
      × (n'.id ≡ n.id)
      × (n'.cache ≡ n.cache)
unfolding NodeMemory.free
free-local n g d here stored alone pos = (
  record g { ptr = 0; size = 0 },
  record n { memory = OrdMap.erase g.ptr n.memory; log = freed g.ptr ∷ n.log },
  ground arith,
  refl,
  refl,
  refl,
  refl,
)

-- What a word behind an address says of the node's memory.
content-find :
    (n : Node) (g : GlobalAddress) (w : ℕ)
    → content n g ≡ some w
    → (g.id ≡ lock_node) × ((d : SaveData) × (OrdMap.find g.ptr n.memory ≡ some d) × (d.value ≡ w))
content-find n g w e = elim (Option-cases (OrdMap.find g.ptr n.memory)) [
  | inl absent ↦ absurd (ground arith)
  | inr (d, found) ↦ (ground arith, (d, found, ground arith))
]

to_tell-alone : (d : SaveData) → d.sharer_nodes ≡ [] → to_tell d ≡ []
unfolding to_tell
to_tell-alone d e = ground arith

not_null :
    (c : Cache) (n : Node) (ptr : ℕ) (d : SaveData)
    → IsQuiet c n
    → OrdMap.find ptr n.memory ≡ some d
    → 0 < ptr
not_null c n zero d q e = absurd (ground (arith, q.no_null))
not_null c n (suc ptr) d q e = omega arith

module _ (c : Cache) (serve : ℕ → M (Unit {0})) (p : Platform) (allocator : Node → ℕ)
    (unused : (n : Node) → OrdMap.find (allocator n) n.memory ≡ none)
    (positive : (n : Node) → 0 < allocator n) (fresh : Node → SaveData)
    (fresh_unshared : (n : Node) → ((fresh n).iscached ≤ 2) × ((fresh n).sharer_nodes ≡ [])) where
  unfoldable pub malloc : ℕ → Node → Run (GlobalAddress × Node)
  unfolding NodeMemory.malloc
  malloc size n =
      NodeMemory.malloc size (record n { script = allocates (some (allocator n, fresh n)) ∷ [] })

  pub malloc-IsQuiet :
      (size : ℕ) (n : Node)
      → IsQuiet c n
      → Returns (malloc size n) λ r.
        IsQuiet c r.1
        × (content n r.0 ≡ none)
        × ((w : ℕ) × (content r.1 r.0 ≡ some w))
        × ((h : GlobalAddress) (w : ℕ) → content n h ≡ some w → content r.1 h ≡ some w)
        × ((h : GlobalAddress) (w : ℕ) → content n h ≡ some w → h.ptr ≢ r.0.ptr)
  unfolding malloc NodeMemory.malloc
  malloc-IsQuiet size n q =
      let ptr = allocator n in
      let g : GlobalAddress = record { size = size; ptr = ptr; id = n.id } in
      let memory' = OrdMap.insert ptr (fresh n) n.memory in
      let found = λ (k : ℕ). OrdMap.find-insert k ptr (fresh n) 0 n.memory q.ordered in
      (
        (
          g,
          record n {
            memory = memory';
            script = [];
            log = asked ((size + save_data_size) % 2 ^ 64) ∷ n.log;
          },
        ),
        refl,
        (
          record {
            is_keeper = q.is_keeper;
            sorted = q.sorted;
            idle = q.idle;
            cached = q.cached;
            ordered = OrdMap.insert-Above ptr (fresh n) 0 n.memory (omega arith) q.ordered;
            no_null = ground (arith, found 0, positive n, q.no_null);
            unshared = λ k d e. ground (arith, found k, unused n, q.unshared k d, fresh_unshared n);
          },
          ground (arith, unused n),
          ((fresh n).value, ground (arith, found ptr, unused n, q.is_keeper)),
          λ h w e. ground (arith, found h.ptr, unused n, content-find n h w e),
          λ h w e. ground (arith, unused n, content-find n h w e),
        ),
      )

  pub write-IsQuiet :
      (d : Data) (n : Node) (w : ℕ)
      → IsQuiet c n
      → content n d.ga ≡ some w
      → Returns (Writing.write serve p d n) λ r.
        IsQuiet c r.1
        × (content r.1 d.ga ≡ some d.value)
        × ((h : GlobalAddress) → h.ptr ≢ d.ga.ptr → content r.1 h ≡ content n h)
  write-IsQuiet d n w q e =
      let (home, (old, stored, _)) = content-find n d.ga w e in
      let alone = to_tell-alone old (q.unshared d.ga.ptr old stored).1 in
      let (ascends, idle) = after_lock-IsIdle exclusive d.ga.id n.locks q.sorted q.idle in
      let now = stored_locally n d in
      let found = λ (k : ℕ). OrdMap.find-assign k d.ga.ptr now n.memory in
      (
        (d.ga, wrote n d old n.script),
        write-wrote serve p n d old [] n.script q.is_keeper (home ∙ sym q.is_keeper) q.sorted
            (q.idle d.ga.id) stored (ap length (sym alone)),
        (
          record {
            is_keeper = q.is_keeper;
            sorted = ascends;
            idle = idle;
            cached = q.cached;
            ordered = OrdMap.assign-Above d.ga.ptr now 0 n.memory q.ordered;
            no_null = ground (arith, found 0, q.no_null, not_null c n d.ga.ptr old q stored);
            unshared = λ k x e. ground (arith, found k, q.unshared k x);
          },
          ground (arith, found d.ga.ptr),
          λ h away. ground (arith, found h.ptr),
        ),
      )

  pub read-IsQuiet :
      (g : GlobalAddress) (n : Node) (w : ℕ)
      → IsQuiet c n
      → content n g ≡ some w
      → Returns
          (NodeMemory.read p g n)
          λ r. IsQuiet c r.1 × (r.0 ≡ w) × ((h : GlobalAddress) → content r.1 h ≡ content n h)
  read-IsQuiet g n w q e =
      let (home, (d, stored, same)) = content-find n g w e in
      let (ascends, idle) = after_lock-IsIdle shared_lock g.id n.locks q.sorted q.idle in
      (
        _,
        read-local p n g d q.is_keeper (home ∙ sym q.is_keeper) q.sorted (q.idle g.id) stored
            (q.unshared g.ptr d stored).0,
        (
          record {
            is_keeper = q.is_keeper;
            sorted = ascends;
            idle = idle;
            cached = q.cached;
            ordered = q.ordered;
            no_null = q.no_null;
            unshared = q.unshared;
          },
          same,
          λ h. refl,
        ),
      )

  pub free-IsQuiet :
      (g : GlobalAddress) (n : Node) (w : ℕ)
      → IsQuiet c n
      → content n g ≡ some w
      → Returns (NodeMemory.free g n) λ r.
        IsQuiet c r.1
        × (content r.1 g ≡ none)
        × ((h : GlobalAddress) → h.ptr ≢ g.ptr → content r.1 h ≡ content n h)
  free-IsQuiet g n w q e =
      let (home, (d, stored, same)) = content-find n g w e in
      let (r, n', runs, mem, locks, id, cache) =
        free-local n g d (home ∙ sym q.is_keeper) stored (q.unshared g.ptr d stored).1
          (not_null c n g.ptr d q stored) in
      let found = λ (k : ℕ). OrdMap.find-erase k g.ptr 0 n.memory q.ordered in
      (
        (r, n'),
        runs,
        (
          record {
            is_keeper = id ∙ q.is_keeper;
            sorted = rw locks q.sorted;
            idle = rw locks q.idle;
            cached = cache ∙ q.cached;
            ordered = rw mem (OrdMap.erase-Above g.ptr 0 n.memory q.ordered);
            no_null = rw mem (ground (arith, found 0, q.no_null));
            unshared = λ k x at. ground (arith, mem, found k, q.unshared k x);
          },
          rw mem (ground (arith, found g.ptr)),
          λ h away. rw mem (ground (arith, found h.ptr)),
        ),
      )

  -- The node keeps the laws on which the table relies.
  abbrev pub node_memory : Memory
  node_memory = record {
    State = Node;
    IsSound = IsQuiet c;
    content = content;
    malloc = malloc;
    write = Writing.write serve p;
    read = NodeMemory.read p;
    free = NodeMemory.free;
    malloc_lem = malloc-IsQuiet;
    write_lem = write-IsQuiet;
    read_lem = read-IsQuiet;
    free_lem = free-IsQuiet;
  }
