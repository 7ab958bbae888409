-- ===== src/Cluster/Coherence.antt =====
-- The copies of an object that only its owner writes: every step keeps them equal to it.
use cachecoherence.Base.{
  ℕ, ◌≤◌, ◌≡◌, ◌≢◌, sym, ◌∙◌, ap, Option, none, some, Bool, true, false, ◌||◌, List, [], ◌∷◌, ◌++◌,
  arith, ok, ◌==◌, Option-cases, inl, inr,
}
use cachecoherence.Base.OrdMap
use cachecoherence.Base.OrdMap.{Above}
use cachecoherence.Defs.Address.{GlobalAddress, Platform}
use cachecoherence.Defs.Message.{SaveData, shared, unlocked, Lock}
use cachecoherence.Cache.{CacheItem, key, add_cache_item}
use cachecoherence.Cache.Contents.{add_cache_item-Within}
use cachecoherence.Node.State.{connects, accepts, Node}
use cachecoherence.Node.Network.{port}
use cachecoherence.Node.Memory.{Ref, received, perform_read, data_of}
use cachecoherence.Node.Serving.{connect_and_receive}
use cachecoherence.Node.Reading.{read_item, perform_read-hit}
use cachecoherence.Cluster.World.{World, put, sent, Session}
use cachecoherence.Cluster.Sessions.{shared_with, read_messages, serve-read_inv}
use cachecoherence.Cluster.Asking.{perform_read-Asked}

abbrev pub among : ℕ → List ℕ → Bool
among i [] = false
among i (j ∷ js) = (j == i) || among i js

among-append : (i j : ℕ) (js : List ℕ) → among i (js ++ j ∷ []) ≡ (among i js || (j == i))
among-append i j [] = ground arith
among-append i j (k ∷ js) = ground (arith, among-append i j js)

-- The copy of an object that a node holds.
abbrev pub copy : Platform → GlobalAddress → Node → Option CacheItem
copy p g n = OrdMap.find (key p g) n.cache.items

-- The object has the value `v`; a node with a copy has that value, and the owner knows of it.
pub record IsCoherent (p : Platform) (g : GlobalAddress) (v : ℕ) (w : World) : Type 0 where
  pub here : g.id ≡ w.owner.id
  pub object : SaveData
  pub stored : OrdMap.find g.ptr w.owner.memory ≡ some object
  pub current : object.value ≡ v
  pub valid : object.iscached ≤ 2
  pub ids : (i : ℕ) → (w.clients i).id ≡ i
  pub sorted : (i : ℕ) → Above 0 (w.clients i).cache.items
  pub copies :
      (i : ℕ) (it : CacheItem)
      → copy p g (w.clients i) ≡ some it
      → (it.value ≡ v) × (among i object.sharer_nodes ≡ true)

-- What a read from the cache returns and leaves.
abbrev pub HitBy : Platform → GlobalAddress → Node → CacheItem → ℕ → Node → Type 0
HitBy p g n it value n' =
    (copy p g n ≡ some it)
    × (value ≡ it.value)
    × (n'.id ≡ n.id)
    × (n'.cache.items
        ≡ OrdMap.assign (key p g) (record it { last_used = p.clock n.ticks }) n.cache.items)

pub perform_read-HitBy :
    (p : Platform) (g : GlobalAddress) (n n' n'' : Node) (src value : ℕ) (got : Ref)
    → g.id ≢ n.id
    → perform_read p g src (record n { script = [] }) ≡ ok (got, n')
    → data_of got n' ≡ ok (value, n'')
    → (it : CacheItem) × HitBy p g n it value n''
unfolding perform_read data_of
perform_read-HitBy p g n n' n'' src value got remote runs reads = elim (Option-cases (copy p g n)) [
  | inl miss ↦ absurd (ground arith)
  | inr (it, hit) ↦
      let known = perform_read-hit p (record n { script = [] }) g remote it src hit in
      (it, ground (arith, known))
]

module _ (p : Platform) (g : GlobalAddress) (v : ℕ) (w : World) (c : IsCoherent p g v w) where
  remote : (i : ℕ) → i ≢ g.id → g.id ≢ (w.clients i).id
  remote i away e = away (sym (c.ids i) ∙ sym e)

  -- A read from the cache returns the value, and the copy stays.
  pub cached-IsCoherent :
      (i value : ℕ) (it : CacheItem) (n : Node)
      → HitBy p g (w.clients i) it value n
      → (value ≡ v) × IsCoherent p g v (record w { clients = put w.clients i n })
  cached-IsCoherent i value it n (hit, same, id, items) =
      let k = key p g in
      let now = p.clock (w.clients i).ticks in
      let old = (w.clients i).cache.items in
      (
        same ∙ (c.copies i it hit).0,
        record {
          here = c.here;
          object = c.object;
          stored = c.stored;
          current = c.current;
          valid = c.valid;
          ids = λ j. ground (arith, c.ids j, id);
          sorted = λ j. ground (
            arith,
            c.sorted j,
            items,
            OrdMap.assign-Above k (record it { last_used = now }) 0 old (c.sorted i),
          );
          copies = λ j x e. ground (
            arith,
            c.copies j x,
            c.copies i it hit,
            items,
            OrdMap.find-assign k k (record it { last_used = now }) old,
          );
        },
      )

  -- A session of a read: the answer is the value of the object, and the reader has missed.
  answered_value :
      (i fuel : ℕ) (got : Ref) (n' owner' : Node)
      → i ≢ g.id
      → Session p fuel port (perform_read p g i) (w.clients i) w.owner got n' owner'
      → (copy p g (w.clients i) ≡ none)
        × (got ≡ received v)
        × (owner' ≡ shared_with port w.owner g c.object i)
        × (add_cache_item p (w.clients i).cache g (read_item p (w.clients i) g v) ≡ ok n'.cache)
        × (n'.id ≡ (w.clients i).id)
  answered_value i fuel got n' owner' away session = elim (Option-cases (copy p g n)) [
    | inr (it, hit) ↦
        let known =
          perform_read-hit p (record n { script = connects true ∷ sent owner'.log; log = [] }) g
            (remote i away) it i hit in
        absurd (ground (arith, known, session.calls, session.no_more))
    | inl miss ↦
        let (x, imm, imm', b, answers, got_is, added, id, messages) =
          perform_read-Asked p n g (remote i away) i miss (sent owner'.log) got n' session.calls
            session.no_more in
        let l : Lock = record { id = n.id; state = unlocked } in
        let serves : connect_and_receive p fuel port
              (record w.owner { script = accepts ∷ read_messages g i l; log = [] })
            ≡ ok (tt, owner') =
          ap
            (λ xs.
              connect_and_receive p fuel port (record w.owner { script = accepts ∷ xs; log = [] }))
            (sym messages)
          ∙ session.serves in
        let after =
          serve-read_inv p port w.owner g i l c.object c.stored c.here c.valid fuel owner' serves in
        let said : sent owner'.log ≡ sent (shared_with port w.owner g c.object i).log =
          ap (λ (o : Node). sent o.log) after in
        let same : x ≡ v = ground (arith, said, answers, c.current) in
        (miss, rw (← same) got_is, after, rw (← same) added, id)
  ]
    where
      n : Node
      n = w.clients i

  -- A read that calls the owner returns the value, and the owner knows of the reader.
  pub owner-IsCoherent :
      (i value fuel : ℕ) (got : Ref) (n' n'' owner' : Node)
      → i ≢ g.id
      → Session p fuel port (perform_read p g i) (w.clients i) w.owner got n' owner'
      → data_of got n' ≡ ok (value, n'')
      → (value ≡ v) × IsCoherent p g v (record { owner = owner'; clients = put w.clients i n'' })
  unfolding data_of
  owner-IsCoherent i value fuel got n' n'' owner' away session reads =
      let (miss, got_is, after, added, id) = answered_value i fuel got n' owner' away session in
      let item = read_item p (w.clients i) g v in
      let (ascends, within) =
        add_cache_item-Within p (w.clients i).cache n'.cache g item (c.sorted i) added in
      let seen : (value ≡ v) × (n'' ≡ n') = ground (arith, got_is) in
      let object' = record c.object {
        iscached = shared;
        sharer_nodes = c.object.sharer_nodes ++ i ∷ [];
      } in
      (
        seen.0,
        rw (seen.1, after)
            (record {
              here = c.here;
              object = object';
              stored =
                  ground (arith, c.stored, OrdMap.find-assign g.ptr g.ptr object' w.owner.memory);
              current = c.current;
              valid = omega arith;
              ids = λ j. ground (arith, c.ids j, id);
              sorted = λ j. ground (arith, c.sorted j, ascends);
              copies = λ j x e. ground (
                arith,
                c.copies j x,
                within (key p g) x,
                miss,
                among-append j i c.object.sharer_nodes,
              );
            }),
      )
