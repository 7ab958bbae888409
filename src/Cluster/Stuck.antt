-- ===== src/Cluster/Stuck.antt =====
-- src/Send.cpp, `prepareForInvalidate`, against src/Receive.cpp, `startInvalidations`: a writer that is
-- warned waits for a call of the owner, which calls the nodes that it has noted as readers.
use cachecoherence.Base.{
  ℕ, suc, ◌+◌, ◌<◌, ◌≡◌, ◌∙◌, ◌≢◌, ◌==◌, ◌||◌, refl, some, Bool, true, false, List, [], ◌∷◌, ◌++◌,
  arith, ok, stop, blocked, length, if◌then◌else◌, Returns,
}
use cachecoherence.Base.OrdMap
use cachecoherence.Defs.Address.{SendGlobalAddr, GlobalAddress, Platform}
use cachecoherence.Defs.Address
use cachecoherence.Defs.Message.{
  Data, SaveData, shared_lock, exclusive, ImmData, imm_code, sendable,
}
use cachecoherence.Cache.{Cache, alter_cache_item}
use cachecoherence.Node.State.{
  address, Input, connects, accepts, allocates, arrives, Output, dialled, exchanged, posted, reset,
  closed, Connection, Node, M, flag, step_on, stops,
}
use cachecoherence.Node.Writing.{perform_write, write}
use cachecoherence.Node.Serving.{receive, must_invalidate, connect_and_receive}
use cachecoherence.Node.Dialling.{answering, told, told_one}
use cachecoherence.Node.Stale.{write_item}
use cachecoherence.Node.Owning.{written, write_request, receive-write_shared}
use cachecoherence.Cluster.Coherence.{among}
use cachecoherence.Cluster.Locked.{asked, Ready}
use cachecoherence.Cluster.Elsewhere.{chain, write_calls}
use cachecoherence.Locks.{lock_node, set_local}
use cachecoherence.Locks.Grants.{set_local-state_of}
use cachecoherence.Node.Reading.{session}
use cachecoherence.Node.Locking.{set_lock_away}

-- What arrives at the other end of one queue pair, the oldest first.
abbrev pub said_over : ℕ → List Output → List Input
said_over qpn [] = []
said_over qpn (posted q imm x ∷ log) =
    let before = said_over qpn log in if q == qpn then before ++ arrives imm x ∷ [] else before
said_over qpn (_ ∷ log) = said_over qpn log

-- Whether a node has been called.
abbrev pub has_dialled : ℕ → List Output → Bool
has_dialled i [] = false
has_dialled i (dialled j b ∷ log) = (j == i) || has_dialled i log
has_dialled i (_ ∷ log) = has_dialled i log

said_over-told :
    (qpn id h : ℕ) (g : GlobalAddress) (nodes : List ℕ) (log : List Output)
    → qpn < h
    → said_over qpn (told id h g nodes log) ≡ said_over qpn log
said_over-told qpn id h g [] log low = refl
said_over-told qpn id h g (to ∷ nodes) log low =
    ground (arith, said_over-told qpn id (h + 1 + 1) g nodes (told_one id h g to log) (omega arith))

has_dialled-told :
    (i id h : ℕ) (g : GlobalAddress) (nodes : List ℕ) (log : List Output)
    → has_dialled i (told id h g nodes log) ≡ (among i nodes || has_dialled i log)
has_dialled-told i id h g [] log = refl
has_dialled-told i id h g (to ∷ nodes) log =
    ground (arith, has_dialled-told i id (h + 1 + 1) g nodes (told_one id h g to log))

-- What may still come: anything but a call of another node.
abbrev pub IsNoCall : List Input → Type 0
IsNoCall [] = Unit {0}
IsNoCall (connects b ∷ later) = Unit {0}
IsNoCall (accepts ∷ later) = ⊥
IsNoCall (arrives imm x ∷ later) = Unit {0}
IsNoCall (allocates r ∷ later) = Unit {0}

-- A writer that is warned and then called by nobody waits for ever.
perform_write-blocked :
    (p : Platform) (fuel : ℕ) (d : Data) (src : ℕ) (n : Node) (c' : Cache) (a b : SendGlobalAddr)
    (later : List Input)
    → IsNoCall later
    → d.ga.id ≢ n.id
    → alter_cache_item p n.cache (write_item p n d) d.ga ≡ ok c'
    → perform_write (connect_and_receive p (suc fuel)) p d src (record n {
      script =
          connects true
          ∷ arrives (imm_code ImmData.invalidate) (address a)
          ∷ arrives (imm_code ImmData.default) (address b)
          ∷ later;
    })
      ≡ stop blocked
unfolding perform_write imm_code sendable connect_and_receive
perform_write-blocked p fuel d src n c' a b [] quiet remote cached = ground (arith, cached)
perform_write-blocked p fuel d src n c' a b (connects x ∷ later) quiet remote cached =
    ground (arith, cached)
perform_write-blocked p fuel d src n c' a b (accepts ∷ later) quiet remote cached = absurd quiet
perform_write-blocked p fuel d src n c' a b (arrives imm x ∷ later) quiet remote cached =
    ground (arith, cached)
perform_write-blocked p fuel d src n c' a b (allocates r ∷ later) quiet remote cached =
    ground (arith, cached)

-- The whole write of such a writer, which has been given the lock.
write-blocked :
    (p : Platform) (fuel : ℕ) (d : Data) (n : Node) (c' : Cache) (a b : SendGlobalAddr)
    (later : List Input)
    → IsNoCall later
    → n.id ≢ lock_node
    → d.ga.id ≢ n.id
    → alter_cache_item p n.cache (write_item p n d) d.ga ≡ ok c'
    → write (connect_and_receive p (suc fuel)) p d (record n {
      script = session (flag true) (
          connects true
          ∷ arrives (imm_code ImmData.invalidate) (address a)
          ∷ arrives (imm_code ImmData.default) (address b)
          ∷ later);
    })
      ≡ stop blocked
unfolding chain
write-blocked p fuel d n c' a b later quiet away remote cached =
    let serve = connect_and_receive p (suc fuel) in
    let warned =
      connects true
      ∷ arrives (imm_code ImmData.invalidate) (address a)
      ∷ arrives (imm_code ImmData.default) (address b)
      ∷ later in
    write_calls serve p d (record n { script = session (flag true) warned }) remote
    ∙ step_on _ (set_lock_away n d.ga.id exclusive true warned away) (
        stops _ (
          perform_write-blocked p fuel d n.id (asked n d.ga.id exclusive) c' a b later quiet remote
            cached))

-- The lock is the writer's, and refused to everyone else: what is left of a write that does not return.
abbrev pub LeftWaiting :
    (ℕ → M (Unit {0})) → Platform → ℕ → Connection → Data → Node → Node → Node → List Input → Type 0
LeftWaiting serve p fuel c d n keeper owner answers =
    let i = d.ga.id in
    let (granted, locks) = set_local keeper.locks i exclusive in
    (granted ≡ true)
    × ((set_local locks i shared_lock).0 ≡ false)
    × ((set_local locks i exclusive).0 ≡ false)
    × Returns
        (receive serve p c (record owner { script = write_request d n.id ∷ answers; log = [] }))
        λ served.
          (OrdMap.find d.ga.ptr served.1.memory ≡ some (written d n.id))
          × (has_dialled n.id served.1.log ≡ false)
          × ((later : List Input)
              → IsNoCall later
              → write (connect_and_receive p (suc fuel)) p d (record n {
                script =
                    session (flag true) (connects true ∷ (said_over c.qpn served.1.log ++ later));
              })
                ≡ stop blocked)

-- A node, neither the lock node nor the owner, asks the lock node for the lock of an object that other
-- nodes have read, and gets it; its cache takes the data, and it is not one of the readers. Then the
-- owner stores the data, warns and answers it, and calls the readers, which answer, but not the writer;
-- and the writer, with what it gets over its connection and whatever comes then but a call of another
-- node, waits for ever, so that its write does not return, while the lock is refused to every reader
-- and writer.
pub write-LeftWaiting :
    (serve : ℕ → M (Unit {0})) (p : Platform) (fuel : ℕ) (c : Connection) (s : ℕ) (d : Data)
    (n keeper owner : Node) (old : SaveData) (cache' : Cache) (removed : List ℕ)
    → c.socket ≡ some s
    → c.qpn < owner.handles
    → Ready d.ga old keeper owner
    → n.id ≢ lock_node
    → d.ga.id ≢ n.id
    → must_invalidate old ≡ true
    → among n.id old.sharer_nodes ≡ false
    → length removed ≡ length old.sharer_nodes
    → alter_cache_item p n.cache (write_item p n d) d.ga ≡ ok cache'
    → LeftWaiting serve p fuel c d n keeper owner (answering removed [])
write-LeftWaiting serve p fuel c s d n keeper owner old cache' removed open_socket low ready off
      away some_shared no_reader each cached =
    let i = d.ga.id in
    let a = Address.sendable d.ga n.id in
    let log : List Output =
      closed s
      ∷ reset c.qpn
      ∷ posted c.qpn (imm_code ImmData.default) (address a)
      ∷ posted c.qpn (imm_code ImmData.invalidate) (address a)
      ∷ exchanged s
      ∷ [] in
    let said = said_over-told c.qpn owner.id owner.handles d.ga old.sharer_nodes log low in
    let first = set_local-state_of keeper.locks i i exclusive ready.sorted in
    let taken = (set_local keeper.locks i exclusive).1 in
    (
      ground (arith, first, ready.idle),
      ground (arith, first, ready.idle, set_local-state_of taken i i shared_lock first.2),
      ground (arith, first, ready.idle, set_local-state_of taken i i exclusive first.2),
      (
        _,
        receive-write_shared serve p (record owner { log = [] }) c s open_socket d n.id old
            ready.stored ready.here removed [] some_shared each,
        (
          ground (
            arith,
            ready.stored,
            OrdMap.find-assign d.ga.ptr d.ga.ptr (written d n.id) owner.memory,
          ),
          ground (
            arith,
            no_reader,
            has_dialled-told n.id owner.id owner.handles d.ga old.sharer_nodes log,
          ),
          λ later quiet.
              rw said
                (ground (arith, write-blocked p fuel d n cache' a a later quiet off away cached)),
        ),
      ),
    )
