-- ===== src/Cluster/Progress.antt =====
-- That the steps can be made: no node waits for ever for another one.
use cachecoherence.Base.{
  ℕ, ◌+◌, ◌≤◌, ◌≡◌, ◌≢◌, refl, sym, ◌∙◌, some, List, [], ◌∷◌, arith, length, Option-cases, inl, inr,
  ◌⊎◌,
}
use cachecoherence.Base.OrdMap
use cachecoherence.Defs.Address.{GlobalAddress, Platform, sendable}
use cachecoherence.Defs.Message.{Data, SaveData, unlocked, Lock, ImmData}
use cachecoherence.Cache.{CacheItem}
use cachecoherence.Cache.Accounting.{with_item}
use cachecoherence.Cache.{remove_cache_item}
use cachecoherence.Node.State.{address, Node}
use cachecoherence.Node.Network.{port}
use cachecoherence.Node.Memory.{received, data_of}
use cachecoherence.Node.Dialling.{answering}
use cachecoherence.Node.Coherence.{to_tell, write_local-told}
use cachecoherence.Node.Reading.{session_log, read_item, perform_read-hit, perform_read-miss}
use cachecoherence.Cluster.World.{
  World, put, reads, writes, Drops, no_one, one, Step, reads_cached, reads_owner, writes_owner,
}
use cachecoherence.Cluster.Sessions.{dropped, shared_with, serve-invalidation, serve-read}
use cachecoherence.Cluster.Coherence.{IsCoherent, copy}
use cachecoherence.Cluster.Calls.{calls_made-told}
use cachecoherence.Cluster.Register.{Step-Accepts}

-- Any nodes can be told.
pub tell :
    (p : Platform) (g : GlobalAddress) (id : ℕ) (nodes : List ℕ) (clients : ℕ → Node)
    → (removed : List ℕ) × (clients' : ℕ → Node) × (length removed ≡ length nodes)
      × Drops p g id nodes clients (answering removed []) clients'
tell p g id [] clients = ([], clients, refl, no_one)
tell p g id (j ∷ nodes) clients =
    let (removed, clients', each, drops) =
      tell p g id nodes (put clients j (dropped p j (clients j) g)) in
    (
      (remove_cache_item p (clients j).cache g).0 ∷ removed,
      clients',
      omega (arith, each),
      one j 3 (dropped p j (clients j) g) (serve-invalidation p 0 j (clients j) g id) drops,
    )

-- A reader of the value `v` after its session.
abbrev pub reader : Platform → GlobalAddress → ℕ → Node → ℕ → Node
reader p g v n i = record n {
  cache = with_item p n.cache g (read_item p n g v);
  ticks = n.ticks + 1 + 1;
  handles = n.handles + 1 + 1;
  script = [];
  log = session_log n port ImmData.read (address (sendable g i));
}

module _ (p : Platform) (g : GlobalAddress) (v : ℕ) (w : World) (c : IsCoherent p g v w) where
  -- From a world in which every copy has the value of the object and is known to its owner: a node other than the owner that
  -- has a copy or room for one, in a cache that is not smaller than the object, can read, and gets
  -- that value; with no copy it gets it in a session with the owner that both sides run to the end.
  pub can_read :
      (i : ℕ)
      → i ≢ g.id
      → ((it : CacheItem) × (copy p g (w.clients i) ≡ some it))
        ⊎ (g.size ≤ (w.clients i).cache.available_size)
      → g.size ≤ (w.clients i).cache.max_size
      → (w' : World) × Step p g w (reads i v) w'
  unfolding data_of
  can_read i away room fits =
      let n = w.clients i in
      let remote : g.id ≢ n.id = λ e. away (sym (c.ids i) ∙ sym e) in
      elim (Option-cases (copy p g n)) [
        | inr (it, held) ↦
            let known = perform_read-hit p (record n { script = [] }) g remote it i held in
            rw (← (c.copies i it held).0) (_, reads_cached i it.value _ _ _ away known refl)
        | inl miss ↦
            let has_room : g.size ≤ n.cache.available_size = ground (arith, room) in
            let l : Lock = record { id = n.id; state = unlocked } in
            let quiet : Node = record n { log = [] } in
            let known = perform_read-miss p quiet g remote v i [] miss fits has_room in
            let served = serve-read p port w.owner g i l c.object c.stored c.here c.valid 0 in
            let n' : Node = reader p g v quiet i in
            (
              _,
              reads_owner i v 3 (received v) n' n' (shared_with port w.owner g c.object i) away
                  (record {
                    calls = ground (arith, known, c.current);
                    serves = ground (arith, served);
                    no_more = refl;
                  })
                  refl,
            )
      ]

  -- From a world in which every copy has the value of the object and is known to its owner, the owner
  -- can write any value: the nodes that it calls serve what it sends and answer, and the write ends;
  -- then every copy that there is has the value written and is known to the owner.
  pub can_write : (x size : ℕ) → (w' : World) × Step p g w (writes x) w' × IsCoherent p g x w'
  can_write x size =
      let d : Data = record { size = size; value = x; ga = g } in
      let (removed, clients', each, drops) = tell p g w.owner.id (to_tell c.object) w.clients in
      let step =
        writes_owner d (to_tell c.object) (answering removed []) g _ clients' refl
          (write_local-told (record w.owner { log = [] }) d c.object removed [] c.stored each)
          (calls_made-told w.owner.id w.owner.handles g (to_tell c.object) []) drops refl in
      (_, step, (Step-Accepts step v c).1)

-- A world in which nobody has a copy is coherent.
pub new-IsCoherent :
    (p : Platform) (g : GlobalAddress) (w : World) (d : SaveData)
    → g.id ≡ w.owner.id
    → OrdMap.find g.ptr w.owner.memory ≡ some d
    → d.iscached ≤ 2
    → ((i : ℕ) → (w.clients i).id ≡ i)
    → ((i : ℕ) → (w.clients i).cache.items ≡ [])
    → IsCoherent p g d.value w
unfolding OrdMap.find
new-IsCoherent p g w d here stored valid ids empty = record {
  here = here;
  object = d;
  stored = stored;
  current = refl;
  valid = valid;
  ids = ids;
  sorted = λ i. rw (empty i) tt;
  copies = λ i it e. absurd (ground (arith, empty i));
}
