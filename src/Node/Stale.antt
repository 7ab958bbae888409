-- ===== src/Node/Stale.antt =====
-- What becomes of a copy that a writer keeps in its cache.
use cachecoherence.Base.{
  ℕ, ◌+◌, ◌≤◌, ◌≡◌, ◌≢◌, refl, none, some, false, List, [], ◌∷◌, arith, ok, Returns,
}
use cachecoherence.Base.OrdMap
use cachecoherence.Base.OrdMap.{Above}
use cachecoherence.Defs.Address.{GlobalAddress, Platform}
use cachecoherence.Defs.Address
use cachecoherence.Defs.Message.{Data, SaveData, shared, ImmData, imm_code, sendable}
use cachecoherence.Cache.{CacheItem, key, alter_cache_item}
use cachecoherence.Cache.Accounting.{with_item, add_cache_item_fits}
use cachecoherence.Node.State.{address, content, Input, exchanged, posted, Connection, Node, M}
use cachecoherence.Node.Network.{port}
use cachecoherence.Node.Memory.{made, perform_read}
use cachecoherence.Node.Writing.{perform_write}
use cachecoherence.Node.Serving.{receive, must_invalidate}
use cachecoherence.Node.Reading.{session, session_log, perform_read-hit}
use cachecoherence.Node.Owning.{written, write_request, receive-write_plain}

-- What a writer's cache holds of the address that it has written.
abbrev pub write_item : Platform → Node → Data → CacheItem
write_item p n d = record {
  global_address = d.ga;
  value = d.value;
  created = p.clock n.ticks;
  last_used = p.clock (n.ticks + 1);
}

-- A write to another node's data, of an address that is not cached and fits: the writer puts the
-- data into its own cache, sends it to the owner in one session, and returns the owner's answer.
pub perform_write-miss :
    (serve : ℕ → M (Unit {0})) (p : Platform) (n : Node) (d : Data) (src : ℕ) (rest : List Input)
    → d.ga.id ≢ n.id
    → OrdMap.find (key p d.ga) n.cache.items ≡ none
    → d.ga.size ≤ n.cache.max_size
    → d.ga.size ≤ n.cache.available_size
    → perform_write serve p d src
        (record n { script = session (address (Address.sendable d.ga src)) rest })
      ≡ ok (
        d.ga,
        record n {
          cache = with_item p n.cache d.ga (write_item p n d);
          ticks = n.ticks + 1 + 1;
          handles = n.handles + 1 + 1;
          script = rest;
          log = session_log n port ImmData.write (content (sendable d src));
        },
      )
unfolding perform_write alter_cache_item imm_code sendable
perform_write-miss serve p n d src rest remote miss fits room =
    ground (arith, add_cache_item_fits p n.cache d.ga (write_item p n d) fits room)

written-clean : (d : Data) (src : ℕ) → must_invalidate (written d src) ≡ false
unfolding must_invalidate
written-clean d src = refl

-- The owner serves both writes, the first writer writes and reads, and gets its own value.
abbrev pub StaysStale :
    (ℕ → M (Unit {0}))
    → Platform
    → Node
    → Node
    → Node
    → Connection
    → Connection
    → ℕ
    → ℕ
    → Data
    → ℕ
    → ℕ
    → ℕ
    → List Input
    → Type 0
StaysStale serve p n m owner c c' s s' d v first second rest =
    let d' : Data = record d { value = v } in
    Returns (receive serve p c (record owner { script = write_request d first ∷ owner.script }))
      λ one.
        Returns
          (receive serve p c' (record (one.1) { script = write_request d' second ∷ owner.script }))
          λ two.
            (OrdMap.find d.ga.ptr two.1.memory ≡ some (written d' second))
            × (two.1.log
                ≡ posted c'.qpn (imm_code ImmData.default) (address (Address.sendable d.ga second))
                  ∷ exchanged s'
                  ∷ posted c.qpn (imm_code ImmData.default) (address (Address.sendable d.ga first))
                  ∷ exchanged s
                  ∷ owner.log)
            × (Returns
                (perform_write serve p d' second
                  (record m { script = session (address (Address.sendable d.ga second)) [] }))
                λ wrote.
                  (wrote.0 ≡ d.ga)
                  × (wrote.1.log ≡ session_log m port ImmData.write (content (sendable d' second))))
            × Returns
                (perform_write serve p d first
                  (record n { script = session (address (Address.sendable d.ga first)) rest }))
                λ wrote.
                  (wrote.1.log ≡ session_log n port ImmData.write (content (sendable d first)))
                  × Returns (perform_read p d.ga first wrote.1) λ got.
                    got.0
                    ≡ made (record {
                      value = d.value;
                      iscached = shared;
                      owner_node = 0;
                      sharer_nodes = [];
                    })

-- Two nodes other than the owner write one address in turn; their caches do not have the address, and
-- it fits into them and there is room. Each sends its data in one session, and the owner, which has
-- nothing to invalidate when the first write arrives, gets what they send. It tells nobody: its log
-- shows the two answers alone. The memory holds the second value, and the first writer still reads
-- its own from its cache.
pub perform_read-stale :
    (serve : ℕ → M (Unit {0})) (p : Platform) (n m owner : Node) (c c' : Connection) (s s' : ℕ)
    (d : Data) (v first second : ℕ) (old : SaveData) (rest : List Input)
    → c.socket ≡ some s
    → c'.socket ≡ some s'
    → OrdMap.find d.ga.ptr owner.memory ≡ some old
    → d.ga.id ≡ owner.id
    → must_invalidate old ≡ false
    → d.ga.id ≢ n.id
    → Above 0 n.cache.items
    → OrdMap.find (key p d.ga) n.cache.items ≡ none
    → d.ga.size ≤ n.cache.max_size
    → d.ga.size ≤ n.cache.available_size
    → d.ga.id ≢ m.id
    → OrdMap.find (key p d.ga) m.cache.items ≡ none
    → d.ga.size ≤ m.cache.max_size
    → d.ga.size ≤ m.cache.available_size
    → StaysStale serve p n m owner c c' s s' d v first second rest
perform_read-stale serve p n m owner c c' s s' d v first second old rest open_socket open_socket'
      stored here clean remote a miss fits room remote' miss' fits' room' =
    let d' : Data = record d { value = v } in
    let memory' = OrdMap.assign d.ga.ptr (written d first) owner.memory in
    let kept : OrdMap.find d.ga.ptr memory' ≡ some (written d first) =
      ground (arith, OrdMap.find-assign d.ga.ptr d.ga.ptr (written d first) owner.memory) in
    let owner' : Node = record owner {
      memory = memory';
      log =
          posted c.qpn (imm_code ImmData.default) (address (Address.sendable d.ga first))
          ∷ exchanged s
          ∷ owner.log;
    } in
    (
      _,
      receive-write_plain serve p owner c s open_socket d first old stored here clean,
      (
        _,
        receive-write_plain serve p owner' c' s' open_socket' d' second (written d first) kept here
            (written-clean d first),
        (
          ground (arith, OrdMap.find-assign d.ga.ptr d.ga.ptr (written d' second) memory', kept),
          refl,
          (_, perform_write-miss serve p m d' second [] remote' miss' fits' room', (refl, refl)),
          (
            _,
            perform_write-miss serve p n d first rest remote miss fits room,
            (
              refl,
              (
                _,
                perform_read-hit p
                    (record n {
                      cache = with_item p n.cache d.ga (write_item p n d);
                      ticks = n.ticks + 1 + 1;
                      handles = n.handles + 1 + 1;
                      script = rest;
                      log = session_log n port ImmData.write (content (sendable d first));
                    })
                    d.ga remote (write_item p n d) first
                    (ground (
                      arith,
                      OrdMap.find-insert (key p d.ga) (key p d.ga) (write_item p n d) 0
                          n.cache.items a,
                    )),
                refl,
              ),
            ),
          ),
        ),
      ),
    )
