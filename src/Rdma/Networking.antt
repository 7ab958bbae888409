-- ===== src/Rdma/Networking.antt =====
-- `RDMANetworking` of util/RDMANetworking.h and util/RDMANetworking.cpp: one end of a connection, from
-- the devices to the queue pair, and its port's identifiers from rdma/Network.cpp.
use cachecoherence.Base.{
  ℕ, ◌≡◌, ◌/◌, ◌%◌, ◌^◌, refl, List, [], ◌∷◌, Option, some, Run, ok, ◌>>=◌, All, map, Returns,
  arith,
}
use cachecoherence.Sockets.Stream.{Sent, takes, Received, gives}
use cachecoherence.Sockets.Delivery.{sum, concat, IsPositive, IsFull}
use cachecoherence.Sockets.Accepting.{set_blocking, set_blocking-off}
use cachecoherence.Rdma.Modify.{Gid, Address, Modify, rc_connect}
use cachecoherence.Rdma.Device.{Network, max_wr, max_sge, new_network, InitAttributes}
use cachecoherence.Rdma.Details.{SharedQueues, with_completion_queues}
use cachecoherence.Rdma.Exchange.{address_size, address_bytes, ibport, exchange_qpn_and_connect}
use cachecoherence.Rdma.Meeting.{IsAddress, exchange-meets}

-- What the library and the system answer at one end: the devices, the queues that the network shares,
-- those of a new pair, the number of a new queue pair, the answers about a port, and the socket's flags.
pub record Surroundings : Type 0 where
  pub devices : List ℕ
  pub shared_queues : SharedQueues
  pub new_send_queue : ℕ
  pub new_receive_queue : ℕ
  pub new_number : ℕ
  pub port_lid : ℕ → ℕ
  pub port_gid : ℕ → ℕ → Gid
  pub get_flags : ℕ → Option ℕ

-- `Network::getLID`
unfoldable pub get_lid : Surroundings → ℕ
get_lid around = around.port_lid ibport

-- `Network::getGID`
unfoldable pub get_gid : Surroundings → Gid
get_gid around = around.port_gid ibport 0

-- `IBV_QPT_RC`
abbrev pub reliable_connection : ℕ
reliable_connection = 2

-- `RDMANetworking`, with the flags that its socket is given, the bytes that it sends, and the calls
-- that connect its queue pair
pub record RdmaNetworking : Type 0 where
  pub network : Network
  pub queue_pair : InitAttributes
  pub flags : ℕ
  pub sent : List ℕ
  pub connected : List Modify

-- `RDMANetworking::RDMANetworking`
unfoldable pub rdma_networking : Surroundings → ℕ → List Sent → List Received → Run RdmaNetworking
unfolding new_network with_completion_queues set_blocking exchange_qpn_and_connect get_lid get_gid
rdma_networking around sock sends receives = do
  network ← new_network around.devices
  let queue_pair =
      with_completion_queues around.shared_queues reliable_connection around.new_send_queue
        around.new_receive_queue
  let flags = set_blocking around.get_flags sock
  let addr : Address = record {
    gid = get_gid around;
    qpn = around.new_number;
    lid = get_lid around;
  }
  (sent, connected) ← exchange_qpn_and_connect addr sends receives
  ok (record {
    network = network;
    queue_pair = queue_pair;
    flags = flags;
    sent = sent;
    connected = connected;
  })

-- The address of an end.
abbrev pub own_address : Surroundings → Address
own_address around = record {
  gid = around.port_gid ibport 0;
  qpn = around.new_number;
  lid = around.port_lid ibport;
}

-- An end that is set up, and connected to the address of another one.
pub record IsSetUp (around : Surroundings) (device : ℕ) (other : Address) (r : RdmaNetworking)
    : Type 0 where
  pub on_device : r.network.device ≡ device
  pub own_queues :
      (r.queue_pair.send_completion_queue ≡ around.new_send_queue)
      × (r.queue_pair.recv_completion_queue ≡ around.new_receive_queue)
  pub blocking : (r.flags / 2 ^ 11) % 2 ≡ 0
  pub told : r.sent ≡ address_bytes (own_address around)
  pub meets : r.connected ≡ rc_connect other ibport 0

-- The constructor where there is one device, from the exchange of the addresses on.
set_up :
    (around : Surroundings) (device sock : ℕ) (other : Address) (sends : List Sent)
    (receives : List Received) (opts : ℕ)
    → around.devices ≡ device ∷ []
    → around.get_flags sock ≡ some opts
    → exchange_qpn_and_connect (own_address around) sends receives
      ≡ ok (address_bytes (own_address around), rc_connect other ibport 0)
    → Returns (rdma_networking around sock sends receives) (IsSetUp around device other)
unfolding rdma_networking
set_up around device sock other sends receives opts one flags exchanged = (
  record {
    network = record { device = device; srq_wr = max_wr; srq_sge = max_sge };
    queue_pair =
        with_completion_queues around.shared_queues reliable_connection around.new_send_queue
          around.new_receive_queue;
    flags = set_blocking around.get_flags sock;
    sent = address_bytes (own_address around);
    connected = rc_connect other ibport 0;
  },
  ground (arith, one, exchanged),
  record {
    on_device = refl;
    own_queues = (refl, refl);
    blocking = (set_blocking-off around.get_flags sock opts flags).0;
    told = refl;
    meets = refl;
  },
)

-- Two ends with one device each that are set up over the two sides of a socket, however the system
-- splits the bytes on the way, come to their ends: each on its device, with its own pair of queues and
-- a blocking socket, and with its queue pair connected to the other's address. Their addresses are
-- within the sizes of their fields.
pub rdma_networking-IsSetUp :
    (a b : Surroundings) (device_a device_b sock_a sock_b opts_a opts_b : ℕ)
    (sizes_a sizes_b : List ℕ) (chunks_a chunks_b : List (List ℕ))
    → a.devices ≡ device_a ∷ []
    → b.devices ≡ device_b ∷ []
    → a.get_flags sock_a ≡ some opts_a
    → b.get_flags sock_b ≡ some opts_b
    → IsAddress (own_address a)
    → IsAddress (own_address b)
    → All IsPositive sizes_a
    → All IsPositive sizes_b
    → sum sizes_a ≡ address_size
    → sum sizes_b ≡ address_size
    → All IsFull chunks_a
    → All IsFull chunks_b
    → concat chunks_a ≡ address_bytes (own_address b)
    → concat chunks_b ≡ address_bytes (own_address a)
    → Returns
        (rdma_networking a sock_a (map takes sizes_a) (map gives chunks_a))
        (IsSetUp a device_a (own_address b))
      × Returns
          (rdma_networking b sock_b (map takes sizes_b) (map gives chunks_b))
          (IsSetUp b device_b (own_address a))
rdma_networking-IsSetUp a b device_a device_b sock_a sock_b opts_a opts_b sizes_a sizes_b chunks_a
      chunks_b one one' flags flags' fit fit' p p' whole whole' full full' x y =
    let (runs, runs') =
      exchange-meets (own_address a) (own_address b) sizes_a sizes_b chunks_a chunks_b fit fit' p p'
        whole whole' full full' x y in
    (
      set_up a device_a sock_a (own_address b) (map takes sizes_a) (map gives chunks_a) opts_a one
          flags (rw (← y) runs),
      set_up b device_b sock_b (own_address a) (map takes sizes_b) (map gives chunks_b) opts_b one'
          flags' (rw (← x) runs'),
    )
