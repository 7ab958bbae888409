-- ===== src/Rdma/Device.antt =====
-- rdma/Network.hpp, rdma/Network.cpp, rdma/QueuePair.hpp, rdma/QueuePair.cpp and util/defs.cpp: what
-- is asked of the library, and the requests that are posted. Devices, contexts and queues go by
-- number.
use cachecoherence.Base.{ℕ, Bool, true, false, List, [], ◌∷◌, Run, ok, stop, threw}
use cachecoherence.Defs.Message.{ImmData, imm_code}

-- `openUnambigousDevice`: the device that is opened
unfoldable pub open_unambigous_device : List ℕ → Run ℕ
open_unambigous_device [] = stop threw
open_unambigous_device (device ∷ []) = ok device
open_unambigous_device (device ∷ _ ∷ _) = stop threw

abbrev pub max_wr : ℕ
max_wr = 16351

abbrev pub max_sge : ℕ
max_sge = 1

-- `Network`, as far as its constructor decides: the device, and the limits of the shared receive
-- queue
pub record Network : Type 0 where
  pub device : ℕ
  pub srq_wr : ℕ
  pub srq_sge : ℕ

-- `Network::Network`
unfoldable pub new_network : List ℕ → Run Network
unfolding open_unambigous_device
new_network devices = elim (open_unambigous_device devices) [
  | ok device ↦ ok (record { device = device; srq_wr = max_wr; srq_sge = max_sge })
  | stop s ↦ stop s
]

pub record Capabilities : Type 0 where
  pub max_send_wr : ℕ
  pub max_recv_wr : ℕ
  pub max_send_sge : ℕ
  pub max_recv_sge : ℕ
  pub max_inline_data : ℕ

-- `ibv::queuepair::InitAttributes`
pub record InitAttributes : Type 0 where
  pub context : ℕ
  pub send_completion_queue : ℕ
  pub recv_completion_queue : ℕ
  pub shared_receive_queue : ℕ
  pub capabilities : Capabilities
  pub kind : ℕ
  pub signal_all : Bool

-- `QueuePair::QueuePair`, of the two queues of a `CompletionQueuePair` and a receive queue
unfoldable pub new_queue_pair : ℕ → ℕ → ℕ → ℕ → InitAttributes
new_queue_pair kind send_queue receive_queue shared_queue = record {
  context = 0;
  send_completion_queue = send_queue;
  recv_completion_queue = receive_queue;
  shared_receive_queue = shared_queue;
  capabilities = record {
    max_send_wr = 16351;
    max_recv_wr = 16351;
    max_send_sge = 1;
    max_recv_sge = 1;
    max_inline_data = 512;
  };
  kind = kind;
  signal_all = false;
}

-- `ibv::memoryregion::Slice`, by the size of what it covers, and the request over it
pub record WriteWithImm : Type 0 where
  pub slices : List ℕ
  pub is_inline : Bool
  pub is_signaled : Bool
  pub remote_address : ℕ
  pub imm_data : ℕ

-- `defs::createWriteWithImm`
unfoldable pub create_write_with_imm : ℕ → ℕ → ImmData → WriteWithImm
unfolding imm_code
create_write_with_imm slice remote imm = record {
  slices = slice ∷ [];
  is_inline = true;
  is_signaled = true;
  remote_address = remote;
  imm_data = imm_code imm;
}
