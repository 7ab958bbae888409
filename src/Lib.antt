-- ===== src/Lib.antt =====
-- A distributed shared memory with cache coherence over RDMA. Nodes own objects of one word each,
-- which other nodes read and write by global address; a node caches what it has fetched, the owner
-- of an object records who has a copy, and a write has the copies invalidated. One node, the lock
-- node, keeps a table of locks that every read and write asks first.
--
-- Parts and files:
-- - Defs/Address, Defs/Message: util/defs.h and util/GlobalAddressHash.h, the data that the
--   nodes keep and exchange, `GlobalAddress`, `Data`, `SaveData`, `IMMDATA` and the states of
--   locks and directory entries. A pointer is its integer; integers are naturals, and the hash
--   and the counters wrap.
-- - Cache: src/Cache.h and src/Cache.cpp. The map by hash, a `std::map`, is an association list
--   by ascending key (Base/OrdMap); sizes wrap at 2 ^ 64. The loop of `addCacheItem` runs on
--   fuel, one round more than there are items: a round takes an item out or leaves the items and
--   the free space as they are, so a loop that has not ended by then never ends. Proofs:
--   Cache/Lookup, Cache/Accounting, Cache/Eviction, Cache/Contents, Cache/Bounds, Cache/Leak.
-- - Locks: the decisions of `Node::setLock` of src/api.cpp on the lock node; in Locks/Grants the
--   clients of one lock are a step relation over the table.
-- - Node/State, Node/Network, Node/Memory, Node/Writing, Node/Serving: src/Node.h,
--   src/Connection.h, src/Node.cpp, src/Send.cpp, src/api.cpp and src/Receive.cpp, function by
--   function. A node runs in a state monad with exceptions: `script` holds what it waits for
--   (the results of `connect`, of `accept`, of `malloc`, and the messages that arrive), in
--   order, and `log` what it does, newest first. A node whose script is at its end is blocked.
--   Two nodes talk where what one logs is what the script of the other has. `connectAndReceive`
--   is a loop over the messages of a connection, on fuel, as it has no end of its own; a client
--   that waits for invalidations calls it, so the functions before it take it as the parameter
--   `serve`. A session of one request and the farewell needs a fuel of three. Proofs:
--   Node/Dialling, Node/Sharing, Node/Owning, Node/Reading, Node/Locking, Node/Coherence,
--   Node/Keeping, Node/Stale.
-- - Cluster: several nodes around one object. A step of Cluster/World is a read of one of them,
--   from its cache or in a session with the owner, or a write of the owner, which tells the
--   sharers one after the other; both sides of a session run their own code, and what the one
--   posts is what arrives at the other. In a write the calls are read off the owner's log, with
--   what it posts in each (`calls_made`), and each node that is called runs on that. The steps
--   are what a node does under the lock of the object. Proofs: Cluster/Sessions, Cluster/Calls,
--   Cluster/Asking, Cluster/Coherence, Cluster/Invalidation, Cluster/Register, Cluster/Progress.
--   Whole operations of a node that asks the lock node, then the owner, then the lock node again
--   are in Cluster/Locked and Cluster/Elsewhere, and a writer that is left waiting is in
--   Cluster/Stuck, one that is called in Cluster/Rewriting. The end of an object is in
--   Cluster/Freeing.
-- - App/HashTable: app/HashTable.h, over the interface `Memory` of App/Interface: allocation,
--   reads, writes and frees, with what the table relies on. App/Stacks and App/Methods view the
--   table as a stack of words under each key, App/OnNode fills the interface with a lock node
--   that works on data of its own, where the memory that `malloc` gives reads as anything that
--   is not shared, and App/Sessions runs operations one after the other. App/Simulation and
--   App/Subscript compare each operation with one on an abstract table (`Stacks`), App/Histories
--   any sequence of them, and App/Placement, App/Shrinking and App/Clearing are about `clear`.
-- - Main: main.cpp. Main/Locally has the client's session with its table, on any memory,
--   Main/Remotely its session with the server and the server's loop, which is followed for a
--   number of connections, and Main/Program the choice between them. A reference that
--   `operator[]` returns is to a variable that is gone; reading it is undefined. What is printed
--   is the list of the values. Proofs: Main/Outputs, Main/Written.
-- - Sockets: util/socket (Sockets/Poll has `Socket::poll_first`). Sockets/Descriptor has the
--   `Socket` objects of a program with the descriptors that they own, Sockets/Linked the
--   connections of src/Connection.cpp that hold them, Sockets/Stream the loops `write` and
--   `read` of tcp.cpp and domain.cpp, whose rounds follow a list of the answers of `send` and
--   `recv`, Sockets/Objects the templates of tcp.h and domain.h over them, and Sockets/Domain,
--   Sockets/Tcp and Sockets/Accepting the set-up of connections over a kernel that is a
--   parameter. Proofs: Sockets/Ownership, Sockets/Delivery, Sockets/Names.
-- - Rdma: rdma, util/RDMANetworking.cpp and util/defs.cpp. Rdma/Modify has the calls that
--   connect the queue pairs (RcQueuePair, UcQueuePair, UdQueuePair), Rdma/Completion
--   rdma/CompletionQueuePair.cpp over a list of what the polls find, Rdma/Device what
--   rdma/Network.cpp, rdma/QueuePair.cpp and util/defs.cpp ask the library for, and
--   Rdma/Exchange the two structs that go over the socket, as bytes (Rdma/Layout). Proofs:
--   Rdma/Handshake, whose table of attributes by transport is that of the documentation of
--   ibv_modify_qp, Rdma/Polling, Rdma/Meeting, Rdma/Posting. Rdma/Report and Rdma/Details have
--   the lines that `printCapabilities` and `printQueuePairDetails` print, of what the library
--   answers. Rdma/Wire has the packed structs of util/defs.h as bytes, and the casts of the
--   receivers. Rdma/Registered has rdma/MemoryRegion.h and the functions of rdma/Network.cpp and
--   rdma/QueuePair.cpp that pass on to the library, which are over parameters for its calls, and
--   Rdma/Networking the set-up of one end by `RDMANetworking`.
-- - Tests: the definitions on concrete inputs, and each theorem at an input that meets its
--   hypotheses.
--
-- Not modelled: include/libibverbscpp, a copy of another library, whose calls are inputs and outputs
-- of the model; the output operators; and rdma/NetworkException.h, an exception with a text. The hash
-- of an integer and the clock are parameters (`Platform`). A node's messages are modelled by what they
-- hold, and a completed receive by its immediate data and what the peer has written; Rdma/Wire has
-- them as bytes. Posting a request is taken to succeed in the model of a node, which Rdma/Posting bounds.
pub mod Base
pub mod Defs
pub mod Cache
pub mod Locks
pub mod Node
pub mod Cluster
pub mod App
pub mod Sockets
pub mod Rdma
pub mod Main
mod Tests
