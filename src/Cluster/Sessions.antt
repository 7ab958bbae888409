-- ===== src/Cluster/Sessions.antt =====
-- Whole sessions of one request and the farewell, as the serving node goes through them.
use cachecoherence.Base.{ℕ, zero, suc, ◌+◌, ◌≤◌, ◌≡◌, some, false, List, [], ◌∷◌, ◌++◌, arith, ok}
use cachecoherence.Base.OrdMap
use cachecoherence.Defs.Address.{GlobalAddress, Platform, sendable}
use cachecoherence.Defs.Message.{SaveData, Lock, shared, ImmData, imm_code}
use cachecoherence.Cache.{remove_cache_item}
use cachecoherence.Node.State.{
  Payload, address, lock, flag, word, Input, accepts, arrives, Output, listened, linked, exchanged,
  posted, reset, closed, Node,
}
use cachecoherence.Node.Serving.{connect_and_receive}
use cachecoherence.Cluster.World.{invalidation}

-- The log of a served session: the answer and the answer to the farewell.
abbrev pub served_log : ℕ → ℕ → Payload → List Output → List Output
served_log h at_port answer log =
    closed (h + 1 + 1 + 1)
    ∷ reset (h + 1)
    ∷ posted (h + 1) (imm_code ImmData.reset) (flag false)
    ∷ exchanged (h + 1 + 1 + 1)
    ∷ posted (h + 1) (imm_code ImmData.default) answer
    ∷ exchanged (h + 1 + 1 + 1)
    ∷ linked (h + 1)
    ∷ exchanged (h + 1 + 1 + 1)
    ∷ closed h
    ∷ closed (h + 1 + 1)
    ∷ listened at_port
    ∷ log

abbrev pub dropped : Platform → ℕ → Node → GlobalAddress → Node
dropped p at_port n g = record n {
  cache = (remove_cache_item p n.cache g).1;
  handles = n.handles + 1 + 1 + 1 + 1;
  script = [];
  log = served_log n.handles at_port (word (remove_cache_item p n.cache g).0) [];
}

-- A node that is called to drop an address does so, whatever it has.
pub serve-invalidation :
    (p : Platform) (fuel at_port : ℕ) (n : Node) (g : GlobalAddress) (asker : ℕ)
    → connect_and_receive p
        (suc (suc (suc fuel)))
        at_port
        (record n { script = accepts ∷ invalidation g asker; log = [] })
      ≡ ok (tt, dropped p at_port n g)
unfolding connect_and_receive imm_code sendable
serve-invalidation p fuel at_port n g asker = ground arith

-- A session that ends has had fuel for its messages, so that it ends in the same way.
pub serve-invalidation_inv :
    (p : Platform) (fuel at_port : ℕ) (n n' : Node) (g : GlobalAddress) (asker : ℕ)
    → connect_and_receive p fuel at_port
        (record n { script = accepts ∷ invalidation g asker; log = [] })
      ≡ ok (tt, n')
    → n' ≡ dropped p at_port n g
unfolding connect_and_receive imm_code sendable
serve-invalidation_inv p zero at_port n n' g asker runs = absurd (ground arith)
serve-invalidation_inv p (suc zero) at_port n n' g asker runs = absurd (ground arith)
serve-invalidation_inv p (suc (suc zero)) at_port n n' g asker runs = absurd (ground arith)
serve-invalidation_inv p (suc (suc (suc fuel))) at_port n n' g asker runs = ground arith

-- The owner after a read request, and the messages of such a session.
abbrev pub shared_with : ℕ → Node → GlobalAddress → SaveData → ℕ → Node
shared_with at_port n g d src = record n {
  memory =
      OrdMap.assign g.ptr
        (record d { iscached = shared; sharer_nodes = d.sharer_nodes ++ src ∷ [] }) n.memory;
  handles = n.handles + 1 + 1 + 1 + 1;
  script = [];
  log = served_log n.handles at_port (word d.value) [];
}

abbrev pub read_messages : GlobalAddress → ℕ → Lock → List Input
read_messages g src l =
    arrives (imm_code ImmData.read) (address (sendable g src))
    ∷ arrives (imm_code ImmData.reset) (lock l)
    ∷ []

module _ (p : Platform) (at_port : ℕ) (n : Node) (g : GlobalAddress) (src : ℕ) (l : Lock)
    (d : SaveData) (stored : OrdMap.find g.ptr n.memory ≡ some d) (here : g.id ≡ n.id)
    (valid : d.iscached ≤ 2) where
  -- The owner of an object that is called to read it answers with its value, and notes the reader.
  pub serve-read :
      (fuel : ℕ)
      → connect_and_receive p
          (suc (suc (suc fuel)))
          at_port
          (record n { script = accepts ∷ read_messages g src l; log = [] })
        ≡ ok (tt, shared_with at_port n g d src)
  unfolding connect_and_receive imm_code sendable
  serve-read fuel = ground arith

  pub serve-read_inv :
      (fuel : ℕ) (n' : Node)
      → connect_and_receive p fuel at_port
          (record n { script = accepts ∷ read_messages g src l; log = [] })
        ≡ ok (tt, n')
      → n' ≡ shared_with at_port n g d src
  unfolding connect_and_receive imm_code sendable
  serve-read_inv zero n' runs = absurd (ground arith)
  serve-read_inv (suc zero) n' runs = absurd (ground arith)
  serve-read_inv (suc (suc zero)) n' runs = absurd (ground arith)
  serve-read_inv (suc (suc (suc fuel))) n' runs = ground arith
