-- ===== src/Cluster/Elsewhere.antt =====
-- A write (`Node::write` of src/api.cpp) of a node that is neither the lock node nor the owner, and
-- the reads of other nodes after it.
use cachecoherence.Base.{
  ℕ, ◌+◌, ◌≡◌, ◌≢◌, refl, ap, ◌∙◌, some, Bool, true, false, List, [], ◌∷◌, ◌++◌, arith, ok, inr,
  All,
}
use cachecoherence.Base.OrdMap
use cachecoherence.Base.OrdMap.{Above}
use cachecoherence.Defs.Address.{SendGlobalAddr, GlobalAddress, Platform, of_sendable}
use cachecoherence.Defs.Address
use cachecoherence.Defs.Message.{
  Data, SaveData, unlocked, exclusive, shared, ImmData, imm_code, sendable,
}
use cachecoherence.Cache.{Cache, alter_cache_item}
use cachecoherence.Cache.Accounting.{with_item, add_cache_item_fits}
use cachecoherence.Locks.{lock_node}
use cachecoherence.Locks.Grants.{state_of}
use cachecoherence.Node.State.{
  address, content, lock, flag, Input, accepts, arrives, Node, M, ◌>>=◌, pure, step_on,
}
use cachecoherence.Node.Network.{port}
use cachecoherence.Node.Memory.{is_local, set_lock}
use cachecoherence.Node.Writing.{write_local, perform_write, write}
use cachecoherence.Node.Serving.{must_invalidate, connect_and_receive}
use cachecoherence.Node.Reading.{session, session_log}
use cachecoherence.Node.Stale.{write_item}
use cachecoherence.Node.Locking.{set_lock_away}
use cachecoherence.Node.Keeping.{perform_write-session}
use cachecoherence.Node.Owning.{written}
use cachecoherence.Cluster.Sessions.{served_log}
use cachecoherence.Cluster.Locked.{
  Under, lock_messages, kept, serve-lock, asked, Ready, Fetches, freed_again, ReadsUnder,
  read-ReadsUnder,
}

-- A writer's request as it arrives, and the owner after it.
abbrev pub write_messages : Data → ℕ → List Input
write_messages d src =
    arrives (imm_code ImmData.write) (content (sendable d src))
    ∷ arrives (imm_code ImmData.reset) (lock (record { id = src; state = unlocked }))
    ∷ []

abbrev pub written_at : Node → Data → ℕ → Node
written_at n d src = record n {
  memory = OrdMap.assign d.ga.ptr (written d src) n.memory;
  handles = n.handles + 1 + 1 + 1 + 1;
  script = [];
  log = served_log n.handles port (address (Address.sendable d.ga src)) [];
}

serve-write :
    (p : Platform) (n : Node) (d : Data) (src : ℕ) (old : SaveData)
    → OrdMap.find d.ga.ptr n.memory ≡ some old
    → d.ga.id ≡ n.id
    → must_invalidate old ≡ false
    → connect_and_receive p 3 port (record n { script = accepts ∷ write_messages d src; log = [] })
      ≡ ok (tt, written_at n d src)
unfolding connect_and_receive imm_code sendable
serve-write p n d src old stored here none_shared = ground arith

-- The writer after the session with the owner.
abbrev stored_at : Data → Cache → Node → Node
stored_at d c n = record n {
  cache = c;
  ticks = n.ticks + 1 + 1;
  handles = n.handles + 1 + 1;
  log = session_log n port ImmData.write (content (sendable d n.id));
}

of_sendable-sendable : (g : GlobalAddress) (src : ℕ) → of_sendable (Address.sendable g src) ≡ g
unfolding of_sendable Address.sendable
of_sendable-sendable g src = refl

is_local-away : (g : GlobalAddress) (n : Node) → g.id ≢ n.id → is_local g n ≡ false
unfolding is_local
is_local-away g n remote = ground arith

module _ (serve : ℕ → M (Unit {0})) (p : Platform) (d : Data) where
  -- A write as the chain of its calls, with what is done to an object of one's own and to another's.
  unfoldable pub chain : Bool → Node → M GlobalAddress
  chain local n = set_lock d.ga.id exclusive >>= λ got. elim got as (λ b. M GlobalAddress) [
    | false ↦ pure (record { size = 0; ptr = 0; id = 0 })
    | true ↦
        (elim local as (λ b. M GlobalAddress) [
          | true ↦ write_local d
          | false ↦ perform_write serve p d n.id
        ])
        >>= λ result. set_lock d.ga.id unlocked >>= λ u. pure result
  ]

  write_chain : (n : Node) → write serve p d n ≡ chain (is_local d.ga n) n n
  unfolding write chain
  write_chain n = refl

  pub write_calls : (n : Node) → d.ga.id ≢ n.id → write serve p d n ≡ chain false n n
  write_calls n remote = write_chain n ∙ ap (λ b. chain b n n) (is_local-away d.ga n remote)

  write_runs :
      (n : Node) (c : Cache)
      → n.id ≢ lock_node
      → d.ga.id ≢ n.id
      → alter_cache_item p n.cache (write_item p n d) d.ga ≡ ok c
      → write serve p d (record n {
        script =
            session
              (flag true)
              (session (address (Address.sendable d.ga n.id)) (session (flag true) []));
      })
        ≡ ok (
          of_sendable (Address.sendable d.ga n.id),
          record (asked (stored_at d c (asked n d.ga.id exclusive)) d.ga.id unlocked) {
            script = [];
          },
        )
  unfolding chain
  write_runs n c away remote cached =
      let i = d.ga.id in
      let rest = session (flag true) [] in
      let a = Address.sendable d.ga n.id in
      let n₁ = asked n i exclusive in
      write_calls
        (record n { script = session (flag true) (session (address a) (session (flag true) [])) })
        remote
      ∙ step_on _ (set_lock_away n i exclusive true (session (address a) rest) away) (
          step_on _
            (perform_write-session serve p (record n₁ { script = session (address a) rest }) d n.id
              a c rest remote cached refl)
            (step_on _ (set_lock_away (stored_at d c n₁) i unlocked true [] away) refl))

-- The nodes of a list read the object one after the other: each gets the value.
abbrev pub AllRead : Platform → GlobalAddress → SaveData → List Node → Node → Node → Type 0
AllRead p g d [] keeper owner = Unit {0}
AllRead p g d (n ∷ readers) keeper owner =
    (n' : Node) × (keeper' : Node) × (owner' : Node) × ReadsUnder p g d n keeper owner n' keeper'
      owner'
    × AllRead p g (record d { iscached = shared; sharer_nodes = d.sharer_nodes ++ n.id ∷ [] })
        readers keeper' owner'

read-AllRead :
    (p : Platform) (g : GlobalAddress) (d : SaveData) (readers : List Node) (keeper owner : Node)
    → Ready g d keeper owner
    → All (Fetches p g) readers
    → AllRead p g d readers keeper owner
read-AllRead p g d [] keeper owner ready f = tt
read-AllRead p g d (n ∷ readers) keeper owner ready f =
    let (n', keeper', owner', under) = read-ReadsUnder p g d n keeper owner ready f.0 in
    (n', keeper', owner', under, read-AllRead p g _ readers keeper' owner' under.2 f.1)

module _ (serve : ℕ → M (Unit {0})) (p : Platform) (d : Data) (n keeper owner : Node)
    (old : SaveData) (ready : Ready d.ga old keeper owner)
    (none_shared : must_invalidate old ≡ false) (f : Fetches p d.ga n) where
  -- The write's sessions run, and leave the lock free and the data with the owner.
  write-Under :
      (n' : Node) × (keeper' : Node) × (owner' : Node) × Under p
        (write serve p d)
        n
        keeper
        owner
        d.ga
        n'
        keeper'
        owner'
      × (state_of d.ga.id keeper'.locks ≡ some unlocked)
      × Ready d.ga (written d n.id) keeper' owner'
  unfolding alter_cache_item
  write-Under =
      let quiet : Node = record n { log = [] } in
      let i = d.ga.id in
      let between = kept keeper i exclusive in
      let keeper' = kept between i unlocked in
      let (granted, given, free, ascends) =
        freed_again keeper i exclusive ready.sorted ready.idle in
      let c = with_item p n.cache d.ga (write_item p n d) in
      let cached : alter_cache_item p n.cache (write_item p n d) d.ga ≡ ok c =
        ground
          (arith, f.miss, add_cache_item_fits p n.cache d.ga (write_item p n d) f.fits f.room) in
      let runs = write_runs serve p d quiet c f.away f.remote cached in
      (
        record (asked (stored_at d c (asked quiet i exclusive)) i unlocked) { script = [] },
        keeper',
        written_at owner d n.id,
        record {
          between = between;
          asks = lock_messages n.id i exclusive;
          works = write_messages d n.id;
          gives = lock_messages n.id i unlocked;
          calls = ground (arith, runs, granted, given, of_sendable-sendable d.ga n.id);
          locks = serve-lock p keeper n.id i exclusive ready.is_keeper;
          serves = serve-write p owner d n.id old ready.stored ready.here none_shared;
          unlocks = serve-lock p between n.id i unlocked ready.is_keeper;
          messages = refl;
          order = refl;
          no_more = refl;
        },
        free,
        record {
          is_keeper = ready.is_keeper;
          sorted = ascends;
          idle = inr free;
          here = ready.here;
          stored = ground (
            arith,
            ready.stored,
            OrdMap.find-assign d.ga.ptr d.ga.ptr (written d n.id) owner.memory,
          );
          valid = omega arith;
        },
      )

  -- A node writes an object of another node that has no readers to invalidate, while nobody holds its
  -- lock: its three sessions, with the lock node, the owner and the lock node again, run to their
  -- ends, the write returns the address, and the lock is free again; and then any number of nodes
  -- without a copy, one after the other, read the data written, each in three sessions that run to
  -- their ends. The nodes are not the lock node, and their caches have room for the object and do not
  -- have it.
  pub AllRead-write :
      (readers : List Node)
      → All (Fetches p d.ga) readers
      → (n' : Node) × (keeper' : Node) × (owner' : Node) × Under p
          (write serve p d)
          n
          keeper
          owner
          d.ga
          n'
          keeper'
          owner'
        × (state_of d.ga.id keeper'.locks ≡ some unlocked)
        × AllRead p d.ga (written d n.id) readers keeper' owner'
  AllRead-write readers fs =
      let (n', keeper', owner', under, free, ready') = write-Under in
      (
        n',
        keeper',
        owner',
        under,
        free,
        read-AllRead p d.ga (written d n.id) readers keeper' owner' ready' fs,
      )
