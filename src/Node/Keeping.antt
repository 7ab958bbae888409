-- ===== src/Node/Keeping.antt =====
-- The lock node as a client: it reads its own writes to other nodes' data from its cache.
use cachecoherence.Base.{
  ℕ, ◌+◌, ◌≤◌, ◌≡◌, ◌≢◌, ◌==◌, refl, none, some, List, arith, ok, Returns, Bool-cases, Option-cases,
  inl, inr, ◌⊎◌,
}
use cachecoherence.Base.OrdMap
use cachecoherence.Base.OrdMap.{Above}
use cachecoherence.Defs.Address.{SendGlobalAddr, GlobalAddress, Platform, of_sendable}
use cachecoherence.Defs.Message.{
  Data, LockState, unlocked, shared_lock, exclusive, ImmData, imm_code, sendable,
}
use cachecoherence.Cache.{Cache, CacheItem, key, alter_cache_item}
use cachecoherence.Cache.Accounting.{with_item, add_cache_item_fits}
use cachecoherence.Locks.{Locks, lock_node, set_local}
use cachecoherence.Locks.Grants.{state_of, set_local-state_of}
use cachecoherence.Node.State.{address, content, Input, Node, M}
use cachecoherence.Node.Network.{port}
use cachecoherence.Node.Stale.{write_item}
use cachecoherence.Node.Memory.{read}
use cachecoherence.Node.Writing.{perform_write, write}
use cachecoherence.Node.Coherence.{shared_granted, exclusive_granted, IsIdle, state_of-unlocked}
use cachecoherence.Node.Reading.{session, session_log, perform_read-hit}

-- A lock node at rest, and an object of another node that fits into its cache.
pub record Rests (g : GlobalAddress) (n : Node) : Type 0 where
  pub is_keeper : n.id ≡ lock_node
  pub away : g.id ≢ n.id
  pub locks : Above 0 n.locks
  pub idle : (j : ℕ) → IsIdle (state_of j n.locks)
  pub sorted : Above 0 n.cache.items
  pub fits : g.size ≤ n.cache.max_size

-- It has a copy of the object, with the value `v`.
abbrev pub Holds : Platform → GlobalAddress → ℕ → Node → Type 0
Holds p g v n = (it : CacheItem) × (OrdMap.find (key p g) n.cache.items ≡ some it) × (it.value ≡ v)

-- The table after a lock has been taken and given back.
abbrev pub after_lock : LockState → ℕ → Locks → Locks
after_lock wanted i locks = (set_local (set_local locks i wanted).1 i unlocked).1

-- No lock is held after that, if none was held before.
pub after_lock-IsIdle :
    (wanted : LockState) (i : ℕ) (locks : Locks)
    → Above 0 locks
    → ((j : ℕ) → IsIdle (state_of j locks))
    → Above 0 (after_lock wanted i locks)
      × ((j : ℕ) → IsIdle (state_of j (after_lock wanted i locks)))
after_lock-IsIdle wanted i locks a idle =
    let (_, _, a') = set_local-state_of locks i i wanted a in
    let (freed, a'') = state_of-unlocked (set_local locks i wanted).1 i a' in
    (
      a'',
      λ j. elim (Bool-cases (i == j)) [
        | inl here ↦ inr (ground (arith, freed, here))
        | inr there ↦
            let (_, taken, _) = set_local-state_of locks i j wanted a in
            let (_, given, _) = set_local-state_of (set_local locks i wanted).1 i j unlocked a' in
            let same : state_of j (after_lock wanted i locks) ≡ state_of j locks =
              ground (arith, taken, given, there) in
            rw same (idle j)
      ],
    )

-- A read returns the value of the copy, without a message.
pub read-Holds :
    (p : Platform) (g : GlobalAddress) (v : ℕ) (n : Node)
    → Rests g n
    → Holds p g v n
    → Returns (read p g n) λ r.
      (r.0 ≡ v)
      × Rests g r.1
      × Holds p g v r.1
      × (r.1.script ≡ n.script)
      × (r.1.memory ≡ n.memory)
      × (r.1.log ≡ n.log)
unfolding read
read-Holds p g v n h (it, held, current) =
    let k = key p g in
    let it' : CacheItem = record it { last_used = p.clock n.ticks } in
    let n' : Node = record n {
      locks = after_lock shared_lock g.id n.locks;
      cache = record n.cache { items = OrdMap.assign k it' n.cache.items };
      ticks = n.ticks + 1;
    } in
    let (a, idle) = after_lock-IsIdle shared_lock g.id n.locks h.locks h.idle in
    let hit =
      perform_read-hit p (record n { locks = (set_local n.locks g.id shared_lock).1 }) g h.away it
        n.id held in
    (
      (it.value, n'),
      ground (arith, h.is_keeper, shared_granted n.locks g.id h.locks (h.idle g.id), hit),
      (
        current,
        record {
          is_keeper = h.is_keeper;
          away = h.away;
          locks = a;
          idle = idle;
          sorted = OrdMap.assign-Above k it' 0 n.cache.items h.sorted;
          fits = h.fits;
        },
        (it', ground (arith, held, OrdMap.find-assign k k it' n.cache.items), current),
        refl,
        refl,
        refl,
      ),
    )

-- The cache after the writer has put its data there.
pub altered :
    (p : Platform) (c : Cache) (g : GlobalAddress) (ci : CacheItem)
    → Above 0 c.items
    → (OrdMap.find (key p g) c.items ≢ none) ⊎ (g.size ≤ c.available_size)
    → g.size ≤ c.max_size
    → Returns (alter_cache_item p c ci g) λ c'.
      (OrdMap.find (key p g) c'.items ≡ some ci) × Above 0 c'.items × (c'.max_size ≡ c.max_size)
unfolding alter_cache_item
altered p c g ci a room fits =
    let k = key p g in
    elim (Option-cases (OrdMap.find k c.items)) [
      | inr (old, held) ↦ (
        record c { items = OrdMap.assign k ci c.items },
        ground (arith, held),
        (
          ground (arith, held, OrdMap.find-assign k k ci c.items),
          OrdMap.assign-Above k ci 0 c.items a,
          refl,
        ),
      )
      | inl miss ↦
          let has_room : g.size ≤ c.available_size = ground (arith, room) in
          (
            with_item p c g ci,
            ground (arith, miss, add_cache_item_fits p c g ci fits has_room),
            (
              ground (arith, miss, OrdMap.find-insert k k ci 0 c.items a),
              OrdMap.insert-Above k ci 0 c.items (omega arith) a,
              refl,
            ),
          )
    ]

-- A write to another node's object, which the owner answers in one session.
pub perform_write-session :
    (serve : ℕ → M (Unit {0})) (p : Platform) (n : Node) (d : Data) (src : ℕ) (a : SendGlobalAddr)
    (c' : Cache) (rest : List Input)
    → d.ga.id ≢ n.id
    → alter_cache_item p n.cache (write_item p n d) d.ga ≡ ok c'
    → n.script ≡ session (address a) rest
    → perform_write serve p d src n
      ≡ ok (
        of_sendable a,
        record n {
          cache = c';
          ticks = n.ticks + 1 + 1;
          handles = n.handles + 1 + 1;
          script = rest;
          log = session_log n port ImmData.write (content (sendable d src));
        },
      )
unfolding perform_write imm_code sendable
perform_write-session serve p n d src a c' rest remote cached answered =
    ground (arith, cached, answered)

-- A write that the owner answers in one session leaves a copy of the data written, whether there was
-- one or there is room for one.
pub write-Holds :
    (serve : ℕ → M (Unit {0})) (p : Platform) (d : Data) (n : Node) (a : SendGlobalAddr) (v : ℕ)
    (rest : List Input)
    → Rests d.ga n
    → (Holds p d.ga v n) ⊎ (d.ga.size ≤ n.cache.available_size)
    → n.script ≡ session (address a) rest
    → Returns (write serve p d n) λ r.
      (r.0 ≡ of_sendable a)
      × Rests d.ga r.1
      × Holds p d.ga d.value r.1
      × (r.1.script ≡ rest)
      × (r.1.memory ≡ n.memory)
      × (r.1.log ≡ session_log n port ImmData.write (content (sendable d n.id)))
unfolding write
write-Holds serve p d n a v rest h room answered =
    let ci = write_item p n d in
    let room' : (OrdMap.find (key p d.ga) n.cache.items ≢ none)
        ⊎ (d.ga.size ≤ n.cache.available_size) =
      elim room [
        | inl (it, there, _) ↦ inl (λ missing. absurd (ground arith))
        | inr more ↦ inr more
      ] in
    let (c', cached, (held, ascends, same)) =
      altered p n.cache d.ga (write_item p n d) h.sorted room' h.fits in
    let locked : Node = record n { locks = (set_local n.locks d.ga.id exclusive).1 } in
    let (b, idle) = after_lock-IsIdle exclusive d.ga.id n.locks h.locks h.idle in
    let n' : Node = record n {
      locks = after_lock exclusive d.ga.id n.locks;
      cache = c';
      ticks = n.ticks + 1 + 1;
      handles = n.handles + 1 + 1;
      script = rest;
      log = session_log n port ImmData.write (content (sendable d n.id));
    } in
    (
      (of_sendable a, n'),
      ground (
        arith,
        h.is_keeper,
        exclusive_granted n.locks d.ga.id h.locks (h.idle d.ga.id),
        perform_write-session serve p locked d n.id a c' rest h.away cached answered,
      ),
      (
        refl,
        record {
          is_keeper = h.is_keeper;
          away = h.away;
          locks = b;
          idle = idle;
          sorted = ascends;
          fits = omega (arith, same, h.fits);
        },
        (write_item p n d, held, refl),
        refl,
        refl,
        refl,
      ),
    )
