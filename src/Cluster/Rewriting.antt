-- ===== src/Cluster/Rewriting.antt =====
-- src/Send.cpp, `prepareForInvalidate`, with src/Receive.cpp, `startInvalidations`: a writer that is
-- itself the only reader that the owner knows of, and the owner, each running its own code.
use cachecoherence.Base.{ℕ, ◌+◌, ◌≡◌, ◌≢◌, none, some, true, false, List, [], ◌∷◌, ◌++◌, arith, ok}
use cachecoherence.Base.OrdMap
use cachecoherence.Base.OrdMap.{Above}
use cachecoherence.Defs.Address.{GlobalAddress, Platform, of_sendable}
use cachecoherence.Defs.Address
use cachecoherence.Defs.Message.{Data, SaveData, unlocked, Lock, ImmData, imm_code, sendable}
use cachecoherence.Cache.{Cache, alter_cache_item, remove_cache_item}
use cachecoherence.Cache.Contents.{alter_cache_item-Above}
use cachecoherence.Node.State.{
  address, content, flag, lock, word, connects, accepts, arrives, Output, dialled, exchanged,
  linked, posted, reset, closed, listened, Node,
}
use cachecoherence.Node.Network.{port}
use cachecoherence.Node.Writing.{perform_write}
use cachecoherence.Node.Serving.{must_invalidate, connect_and_receive}
use cachecoherence.Node.Dialling.{told}
use cachecoherence.Node.Stale.{write_item}
use cachecoherence.Node.Owning.{written}
use cachecoherence.Cluster.Coherence.{copy}
use cachecoherence.Cluster.Invalidation.{copy-dropped}
use cachecoherence.Cluster.Sessions.{served_log}
use cachecoherence.Cluster.Stuck.{said_over}

-- The log of the writer: its request, its service to the owner that calls it, and its farewell.
abbrev rewriter_log : Node → Data → ℕ → List Output
rewriter_log n d removed =
    let h = n.handles in
    let s = h + 1 + 1 in
    let q = s + 1 + 1 + 1 + 1 in
    closed (q + 1)
    ∷ reset q
    ∷ posted q (imm_code ImmData.reset) (lock (record { id = n.id; state = unlocked }))
    ∷ exchanged (q + 1)
    ∷ linked q
    ∷ exchanged (q + 1)
    ∷ dialled port true
    ∷ served_log s n.id (word removed) (
        closed (h + 1)
        ∷ reset h
        ∷ posted h (imm_code ImmData.write) (content (sendable d n.id))
        ∷ exchanged (h + 1)
        ∷ linked h
        ∷ exchanged (h + 1)
        ∷ dialled port true
        ∷ [])

abbrev rewriter : Platform → Node → Data → Cache → Node
rewriter p n d c = record n {
  cache = (remove_cache_item p c d.ga).1;
  ticks = n.ticks + 1 + 1;
  handles = n.handles + 1 + 1 + 1 + 1 + 1 + 1 + 1 + 1;
  script = [];
  log = rewriter_log n d (remove_cache_item p c d.ga).0;
}

rewrites :
    (p : Platform) (d : Data) (n : Node) (c : Cache) (owner_id : ℕ) (l : Lock)
    → d.ga.id ≢ n.id
    → alter_cache_item p n.cache (write_item p n d) d.ga ≡ ok c
    → perform_write (connect_and_receive p 3) p d n.id (record n {
      script =
          connects true
          ∷ arrives (imm_code ImmData.invalidate) (address (Address.sendable d.ga n.id))
          ∷ arrives (imm_code ImmData.default) (address (Address.sendable d.ga n.id))
          ∷ accepts
          ∷ arrives (imm_code ImmData.invalidate) (address (Address.sendable d.ga owner_id))
          ∷ arrives (imm_code ImmData.reset) (lock l)
          ∷ connects true
          ∷ arrives (imm_code ImmData.reset) (flag false)
          ∷ [];
      log = [];
    })
      ≡ ok (d.ga, rewriter p n d c)
unfolding perform_write connect_and_receive imm_code sendable of_sendable Address.sendable
rewrites p d n c owner_id l remote cached = ground (arith, cached)

-- The owner after the request, and after the farewell on a connection of its own.
abbrev told_rewriter : Node → Data → ℕ → Node
told_rewriter o d src =
    let h = o.handles in
    let a = h + 1 + 1 + 1 in
    record o {
      memory = OrdMap.assign d.ga.ptr (written d src) o.memory;
      handles = a + 1 + 1 + 1;
      script = [];
      log = told o.id (a + 1) d.ga (src ∷ []) (
          closed a
          ∷ reset (h + 1)
          ∷ posted (h + 1) (imm_code ImmData.default) (address (Address.sendable d.ga src))
          ∷ posted (h + 1) (imm_code ImmData.invalidate) (address (Address.sendable d.ga src))
          ∷ exchanged a
          ∷ linked (h + 1)
          ∷ exchanged a
          ∷ closed h
          ∷ closed (h + 1 + 1)
          ∷ listened port
          ∷ []);
    }

serves_rewriter :
    (p : Platform) (d : Data) (o : Node) (old : SaveData) (src removed : ℕ)
    → OrdMap.find d.ga.ptr o.memory ≡ some old
    → d.ga.id ≡ o.id
    → must_invalidate old ≡ true
    → old.sharer_nodes ≡ src ∷ []
    → connect_and_receive p 2 port (record o {
      script =
          accepts
          ∷ arrives (imm_code ImmData.write) (content (sendable d src))
          ∷ connects true
          ∷ arrives (imm_code ImmData.default) (word removed)
          ∷ arrives (imm_code ImmData.reset) (flag false)
          ∷ [];
      log = [];
    })
      ≡ ok (tt, told_rewriter o d src)
unfolding connect_and_receive imm_code sendable
serves_rewriter p d o old src removed stored here some_shared alone = ground arith

-- The owner after the farewell.
abbrev left_alone : Node → Data → ℕ → Node
left_alone o d src =
    let h = (told_rewriter o d src).handles in
    record (told_rewriter o d src) {
      handles = h + 1 + 1 + 1 + 1;
      log =
          closed (h + 1 + 1 + 1)
          ∷ reset (h + 1)
          ∷ posted (h + 1) (imm_code ImmData.reset) (flag false)
          ∷ exchanged (h + 1 + 1 + 1)
          ∷ linked (h + 1)
          ∷ exchanged (h + 1 + 1 + 1)
          ∷ closed h
          ∷ closed (h + 1 + 1)
          ∷ listened port
          ∷ [];
    }

serves_farewell :
    (p : Platform) (d : Data) (o : Node) (src : ℕ) (l : Lock)
    → connect_and_receive p 2 port (record (told_rewriter o d src) {
      script = accepts ∷ arrives (imm_code ImmData.reset) (lock l) ∷ [];
      log = [];
    })
      ≡ ok (tt, left_alone o d src)
unfolding connect_and_receive imm_code sendable
serves_farewell p d o src l = ground arith

-- What each of the two has got over each of the connections.
writer_hears :
    (o : Node) (d : Data) (src : ℕ)
    → let log = (told_rewriter o d src).log in
      (said_over (o.handles + 1) log
        ≡ arrives (imm_code ImmData.invalidate) (address (Address.sendable d.ga src))
          ∷ arrives (imm_code ImmData.default) (address (Address.sendable d.ga src))
          ∷ [])
      × (said_over (o.handles + 4) log
          ≡ arrives (imm_code ImmData.invalidate) (address (Address.sendable d.ga o.id))
            ∷ arrives (imm_code ImmData.reset) (lock (record { id = o.id; state = unlocked }))
            ∷ [])
      × (said_over ((told_rewriter o d src).handles + 1) (left_alone o d src).log
          ≡ arrives (imm_code ImmData.reset) (flag false) ∷ [])
writer_hears o d src = (ground arith, ground arith, ground arith)

owner_hears :
    (n : Node) (d : Data) (removed : ℕ)
    → let log = rewriter_log n d removed in
      (said_over n.handles log ≡ arrives (imm_code ImmData.write) (content (sendable d n.id)) ∷ [])
      × (said_over (n.handles + 3) log
          ≡ arrives (imm_code ImmData.default) (word removed)
            ∷ arrives (imm_code ImmData.reset) (flag false)
            ∷ [])
      × (said_over (n.handles + 6) log
          ≡ arrives (imm_code ImmData.reset) (lock (record { id = n.id; state = unlocked })) ∷ [])
owner_hears n d removed = (ground arith, ground arith, ground arith)

-- The writer and the owner have both run to their ends, on what each has got from the other: the writer
-- calls, is called, and calls again, and the owner serves the first and the last of these.
pub record Rewritten (p : Platform) (d : Data) (n o : Node) : Type 0 where
  pub writer : Node
  pub serving : Node
  pub owner : Node
  pub returns :
      perform_write (connect_and_receive p 3) p d n.id (record n {
        script =
            connects true
            ∷ (said_over (o.handles + 1) serving.log
                ++ accepts
                  ∷ (said_over (o.handles + 4) serving.log
                      ++ connects true ∷ said_over (serving.handles + 1) owner.log));
        log = [];
      })
      ≡ ok (d.ga, writer)
  pub serves :
      connect_and_receive p 2 port (record o {
        script =
            accepts
            ∷ (said_over n.handles writer.log
                ++ connects true ∷ said_over (n.handles + 3) writer.log);
        log = [];
      })
      ≡ ok (tt, serving)
  pub parts :
      connect_and_receive p 2 port
        (record serving { script = accepts ∷ said_over (n.handles + 6) writer.log; log = [] })
      ≡ ok (tt, owner)
  pub stored : OrdMap.find d.ga.ptr owner.memory ≡ some (written d n.id)
  pub no_copy : copy p d.ga writer ≡ none

-- A node writes the object of another node that needs invalidation, and is the only reader that the
-- owner knows of; its cache, which stands in the order of its keys, takes the data. Then its write and
-- the two services of the owner run to their ends, each on what the other one sends over the same
-- connection: the owner stores the data, warns and answers the writer, calls it to drop its copy, and
-- takes its farewell; the write returns the address; the owner has the data, as written by the
-- writer, and the writer is left without a copy.
pub perform_write-Rewritten :
    (p : Platform) (d : Data) (n o : Node) (c : Cache) (old : SaveData)
    → OrdMap.find d.ga.ptr o.memory ≡ some old
    → d.ga.id ≡ o.id
    → d.ga.id ≢ n.id
    → must_invalidate old ≡ true
    → old.sharer_nodes ≡ n.id ∷ []
    → alter_cache_item p n.cache (write_item p n d) d.ga ≡ ok c
    → Above 0 n.cache.items
    → Rewritten p d n o
perform_write-Rewritten p d n o c old stored here remote some_shared alone cached a =
    let l : Lock = record { id = o.id; state = unlocked } in
    let h = writer_hears o d n.id in
    let s = owner_hears n d (remove_cache_item p c d.ga).0 in
    record {
      writer = rewriter p n d c;
      serving = told_rewriter o d n.id;
      owner = left_alone o d n.id;
      returns = rw h.0 (rw h.1 (rw h.2 (rewrites p d n c o.id l remote cached)));
      serves = rw s.0 (
          rw s.1 (
            serves_rewriter p d o old n.id (remove_cache_item p c d.ga).0 stored here some_shared
              alone));
      parts = rw s.2 (serves_farewell p d o n.id (record { id = n.id; state = unlocked }));
      stored =
          ground (arith, stored, OrdMap.find-assign d.ga.ptr d.ga.ptr (written d n.id) o.memory);
      no_copy =
          (copy-dropped p 0 (record n { cache = c }) d.ga
            (alter_cache_item-Above p n.cache c (write_item p n d) d.ga a cached)).0;
    }
