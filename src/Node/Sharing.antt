-- ===== src/Node/Sharing.antt =====
-- The server's answer to a read request, and what it notes about the reader.
use cachecoherence.Base.{
  ℕ, ◌≤◌, ◌≡◌, refl, Returns, none, some, true, [], ◌∷◌, ◌++◌, arith, ok, ◌==◌, if◌then◌else◌,
}
use cachecoherence.Base.OrdMap
use cachecoherence.Defs.Address.{GlobalAddress, Platform, sendable}
use cachecoherence.Defs.Message.{SaveData, shared, ImmData, imm_code}
use cachecoherence.Base.OrdMap.{Above}
use cachecoherence.Cache.{key, remove_cache_item}
use cachecoherence.Cache.Lookup.{lookup, get-remove}
use cachecoherence.Node.State.{address, word, arrives, exchanged, posted, Connection, Node, M}
use cachecoherence.Node.Serving.{receive}

module _ (serve : ℕ → M (Unit {0})) (p : Platform) (n : Node) (c : Connection) (s : ℕ)
    (open_socket : c.socket ≡ some s) (g : GlobalAddress) (d : SaveData)
    (stored : OrdMap.find g.ptr n.memory ≡ some d) where
  -- A read request for data that the server owns is answered with the data; the reader joins the
  -- sharers, and the connection stays.
  pub receive-read :
      (src : ℕ)
      → g.id ≡ n.id
      → d.iscached ≤ 2
      → receive serve p c (record n {
        script = arrives (imm_code ImmData.read) (address (sendable g src)) ∷ n.script;
      })
        ≡ ok (
          (true, c),
          record n {
            memory =
                OrdMap.assign g.ptr
                  (record d { iscached = shared; sharer_nodes = d.sharer_nodes ++ src ∷ [] })
                  n.memory;
            log = posted c.qpn (imm_code ImmData.default) (word d.value) ∷ exchanged s ∷ n.log;
          },
        )
  unfolding receive imm_code sendable
  receive-read src here valid = ground arith

-- A request to drop an address, from whichever node, takes it out of the cache: the next look into
-- the cache misses, and reads of addresses with another hash are not affected. The answer is the
-- number of items dropped, and nothing else of the node changes.
pub receive-invalidate :
    (serve : ℕ → M (Unit {0})) (p : Platform) (n : Node) (c : Connection) (s : ℕ)
    (g h : GlobalAddress) (asker now : ℕ)
    → c.socket ≡ some s
    → Above 0 n.cache.items
    → Returns
        (receive serve p c (record n {
          script = arrives (imm_code ImmData.invalidate) (address (sendable g asker)) ∷ n.script;
        }))
        λ r.
          (r.0 ≡ (true, c))
          × (lookup p r.1.cache h now
              ≡ (if key p g == key p h then none else lookup p n.cache h now))
          × (r.1 ≡ record n {
            cache = (remove_cache_item p n.cache g).1;
            log =
                posted c.qpn (imm_code ImmData.default) (word (remove_cache_item p n.cache g).0)
                ∷ exchanged s
                ∷ n.log;
          })
unfolding receive imm_code sendable
receive-invalidate serve p n c s g h asker now open_socket a = (
  (
    (true, c),
    record n {
      cache = (remove_cache_item p n.cache g).1;
      log =
          posted c.qpn (imm_code ImmData.default) (word (remove_cache_item p n.cache g).0)
          ∷ exchanged s
          ∷ n.log;
    },
  ),
  ground arith,
  (refl, (get-remove p n.cache g h now a).0, refl),
)
