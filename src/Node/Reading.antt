-- ===== src/Node/Reading.antt =====
-- A client's reads: from its cache, from the server, and after an invalidation.
use cachecoherence.Base.{
  ℕ, ◌+◌, ◌≤◌, ◌≡◌, ◌≢◌, refl, none, some, true, false, List, [], ◌∷◌, ◌++◌, arith, ok, Returns,
}
use cachecoherence.Base.OrdMap
use cachecoherence.Base.OrdMap.{Above}
use cachecoherence.Defs.Address.{GlobalAddress, Platform, sendable}
use cachecoherence.Defs.Message.{SaveData, unlocked, shared, ImmData, imm_code}
use cachecoherence.Cache.{CacheItem, key}
use cachecoherence.Cache.Accounting.{with_item, add_cache_item_fits}
use cachecoherence.Cache.Lookup.{lookup, lookup-find}
use cachecoherence.Node.State.{
  Payload, address, lock, flag, word, Input, connects, arrives, Output, dialled, exchanged, linked,
  posted, reset, closed, Connection, Node, M,
}
use cachecoherence.Node.Network.{port}
use cachecoherence.Node.Memory.{received, made, perform_read}
use cachecoherence.Node.Serving.{receive}
use cachecoherence.Node.Sharing.{receive-read}

-- The session of a request to the server: the answer, and the farewell.
abbrev pub session : Payload → List Input → List Input
session x rest =
    connects true
    ∷ arrives (imm_code ImmData.default) x
    ∷ arrives (imm_code ImmData.reset) (flag false)
    ∷ rest

-- The log of that session, with the node at the given port, for a request of the given kind.
abbrev pub session_log : Node → ℕ → ImmData → Payload → List Output
session_log n to imm x =
    closed (n.handles + 1)
    ∷ reset n.handles
    ∷ posted n.handles (imm_code ImmData.reset) (lock (record { id = n.id; state = unlocked }))
    ∷ exchanged (n.handles + 1)
    ∷ posted n.handles (imm_code imm) x
    ∷ exchanged (n.handles + 1)
    ∷ linked n.handles
    ∷ exchanged (n.handles + 1)
    ∷ dialled to true
    ∷ n.log

-- The item that a read of `w` puts into the cache.
abbrev pub read_item : Platform → Node → GlobalAddress → ℕ → CacheItem
read_item p n g w = record {
  global_address = g;
  value = w;
  created = p.clock n.ticks;
  last_used = p.clock (n.ticks + 1);
}

module _ (p : Platform) (n : Node) (g : GlobalAddress) (remote : g.id ≢ n.id) where
  -- A remote address that is cached is read from the cache, with no communication.
  pub perform_read-hit :
      (it : CacheItem) (src : ℕ)
      → OrdMap.find (key p g) n.cache.items ≡ some it
      → perform_read p g src n
        ≡ ok (
          made (record { value = it.value; iscached = shared; owner_node = 0; sharer_nodes = [] }),
          record n {
            cache = record n.cache {
              items =
                  OrdMap.assign (key p g) (record it { last_used = p.clock n.ticks }) n.cache.items;
            };
            ticks = n.ticks + 1;
          },
        )
  unfolding perform_read
  perform_read-hit it src hit = ground arith

  -- A remote address that is not cached is asked of the server in one session; the answer is what
  -- the read returns, and the cache keeps it if it has room.
  pub perform_read-miss :
      (w src : ℕ) (rest : List Input)
      → OrdMap.find (key p g) n.cache.items ≡ none
      → g.size ≤ n.cache.max_size
      → g.size ≤ n.cache.available_size
      → perform_read p g src (record n { script = session (word w) rest })
        ≡ ok (
          received w,
          record n {
            cache = with_item p n.cache g (read_item p n g w);
            ticks = n.ticks + 1 + 1;
            handles = n.handles + 1 + 1;
            script = rest;
            log = session_log n port ImmData.read (address (sendable g src));
          },
        )
  unfolding perform_read sendable imm_code
  perform_read-miss w src rest miss fits room =
      ground (arith, add_cache_item_fits p n.cache g (read_item p n g w) fits room)

-- The owner serves the read request, and the client's read gets the answer.
abbrev pub ReadsThrough :
    (ℕ → M (Unit {0}))
    → Platform
    → Node
    → Node
    → Connection
    → GlobalAddress
    → SaveData
    → ℕ
    → ℕ
    → List Input
    → Type 0
ReadsThrough serve p n owner c g d src now rest =
    Returns
      (receive serve p c (record owner {
        script = arrives (imm_code ImmData.read) (address (sendable g src)) ∷ owner.script;
      }))
      λ served.
        (answer : Payload) × (log : List Output) × (served.1.log
          ≡ posted c.qpn (imm_code ImmData.default) answer ∷ log)
        × (OrdMap.find g.ptr served.1.memory
            ≡ some (record d { iscached = shared; sharer_nodes = d.sharer_nodes ++ src ∷ [] }))
        × Returns (perform_read p g src (record n { script = session answer rest })) λ got.
          (got.0 ≡ received d.value)
          × (got.1.log ≡ session_log n port ImmData.read (address (sendable g src)))
          × (lookup p got.1.cache g now
              ≡ some (record (read_item p n g d.value) { last_used = now }))

-- A read that misses, of an object that fits into the cache and for which there is room there: the
-- client asks for it in one session, and the node that owns the data gets what the client has sent and
-- answers; the client gets the data that stands in the owner's memory, later look-ups hit the cache
-- with the same data, and the owner has the client among the sharers.
pub perform_read-receive :
    (serve : ℕ → M (Unit {0})) (p : Platform) (n owner : Node) (c : Connection) (s : ℕ)
    (g : GlobalAddress) (d : SaveData) (src now : ℕ) (rest : List Input)
    → c.socket ≡ some s
    → OrdMap.find g.ptr owner.memory ≡ some d
    → g.id ≡ owner.id
    → d.iscached ≤ 2
    → g.id ≢ n.id
    → Above 0 n.cache.items
    → OrdMap.find (key p g) n.cache.items ≡ none
    → g.size ≤ n.cache.max_size
    → g.size ≤ n.cache.available_size
    → ReadsThrough serve p n owner c g d src now rest
perform_read-receive serve p n owner c s g d src now rest open_socket stored here valid remote a
      miss fits room =
    (
      _,
      receive-read serve p owner c s open_socket g d stored src here valid,
      (
        word d.value,
        exchanged s ∷ owner.log,
        refl,
        ground (
          arith,
          OrdMap.find-assign g.ptr g.ptr
              (record d { iscached = shared; sharer_nodes = d.sharer_nodes ++ src ∷ [] })
              owner.memory,
        ),
        (
          _,
          perform_read-miss p n g remote d.value src rest miss fits room,
          (
            refl,
            refl,
            lookup-find p (with_item p n.cache g (read_item p n g d.value)) g now
                (read_item p n g d.value)
                (ground (
                  arith,
                  OrdMap.find-insert (key p g) (key p g) (read_item p n g d.value) 0 n.cache.items
                      a,
                )),
          ),
        ),
      ),
    )
