-- ===== src/Node/Owning.antt =====
-- The server's answer to a write request for data that it owns.
use cachecoherence.Base.{ℕ, ◌≡◌, none, some, true, false, List, [], ◌∷◌, arith, ok, length}
use cachecoherence.Base.OrdMap
use cachecoherence.Base.OrdMap.{OrdMap}
use cachecoherence.Defs.Address.{GlobalAddress, Platform}
use cachecoherence.Defs.Address
use cachecoherence.Defs.Message.{Data, SaveData, exclus, ImmData, imm_code, sendable}
use cachecoherence.Node.State.{
  address, content, Input, arrives, exchanged, posted, reset, closed, Connection, Node, M,
}
use cachecoherence.Node.Serving.{receive, must_invalidate}
use cachecoherence.Node.Dialling.{answering, told, handles_after, broadcast_invalidations-told}

-- What a write of another node leaves in memory.
abbrev pub written : Data → ℕ → SaveData
written d src = record { value = d.value; iscached = exclus; owner_node = src; sharer_nodes = [] }

-- A write request as it arrives.
abbrev pub write_request : Data → ℕ → Input
write_request d src = arrives (imm_code ImmData.write) (content (sendable d src))

module _ (serve : ℕ → M (Unit {0})) (p : Platform) (n : Node) (c : Connection) (s : ℕ)
    (open_socket : c.socket ≡ some s) (d : Data) (src : ℕ) (old : SaveData)
    (stored : OrdMap.find d.ga.ptr n.memory ≡ some old) (here : d.ga.id ≡ n.id) where
  -- Where no copies need to be invalidated, the server stores the data with the writer as its owner,
  -- answers with the address, and keeps the connection.
  pub receive-write_plain :
      must_invalidate old ≡ false
      → receive serve p c (record n { script = write_request d src ∷ n.script })
        ≡ ok (
          (true, c),
          record n {
            memory = OrdMap.assign d.ga.ptr (written d src) n.memory;
            log =
                posted c.qpn (imm_code ImmData.default) (address (Address.sendable d.ga src))
                ∷ exchanged s
                ∷ n.log;
          },
        )
  unfolding receive imm_code sendable
  receive-write_plain none_shared = ground arith

  -- Otherwise it warns the writer, stores the data, answers, closes the connection, and then has the
  -- sharers drop their copies, one after the other.
  pub receive-write_shared :
      (removed : List ℕ) (rest : List Input)
      → must_invalidate old ≡ true
      → length removed ≡ length old.sharer_nodes
      → receive serve p c (record n { script = write_request d src ∷ answering removed rest })
        ≡ ok (
          (false, record c { socket = none }),
          record n {
            memory = OrdMap.assign d.ga.ptr (written d src) n.memory;
            handles = handles_after n.handles old.sharer_nodes;
            script = rest;
            log = told n.id n.handles d.ga old.sharer_nodes (
                closed s
                ∷ reset c.qpn
                ∷ posted c.qpn (imm_code ImmData.default) (address (Address.sendable d.ga src))
                ∷ posted c.qpn (imm_code ImmData.invalidate) (address (Address.sendable d.ga src))
                ∷ exchanged s
                ∷ n.log);
          },
        )
  unfolding receive imm_code sendable
  receive-write_shared removed rest some_shared e = ground (
    arith,
    broadcast_invalidations-told old.sharer_nodes removed d.ga
        (record n {
          memory = OrdMap.assign d.ga.ptr (written d src) n.memory;
          log =
              closed s
              ∷ reset c.qpn
              ∷ posted c.qpn (imm_code ImmData.default) (address (Address.sendable d.ga src))
              ∷ posted c.qpn (imm_code ImmData.invalidate) (address (Address.sendable d.ga src))
              ∷ exchanged s
              ∷ n.log;
        })
        rest e,
  )
