-- ===== src/Rdma/Details.antt =====
-- rdma/QueuePair.cpp: what a queue pair is made with by its shorter constructors, and the report on
-- its state, as the lines that it prints, without their columns.
use cachecoherence.Base.{ℕ, Bool, List, [], ◌∷◌, ◌≡◌, refl, if◌then◌else◌}
use Prim.Native.String.{String, ◌++◌}
use cachecoherence.Rdma.Device.{InitAttributes, new_queue_pair}
use cachecoherence.Rdma.Report.{Line, said, named, counted, enclosed}

-- The queues that a `Network` shares: the two of its `CompletionQueuePair`, and the one for receives.
pub record SharedQueues : Type 0 where
  pub send_queue : ℕ
  pub receive_queue : ℕ
  pub shared_receive_queue : ℕ

module _ (network : SharedQueues) (kind : ℕ) where
  -- `QueuePair::QueuePair` of a network and a type
  unfoldable pub of_network : InitAttributes
  unfolding new_queue_pair
  of_network =
      new_queue_pair kind network.send_queue network.receive_queue network.shared_receive_queue

  -- the one with a receive queue
  unfoldable pub with_receive_queue : ℕ → InitAttributes
  unfolding new_queue_pair
  with_receive_queue queue = new_queue_pair kind network.send_queue network.receive_queue queue

  -- the one with a pair of completion queues
  unfoldable pub with_completion_queues : ℕ → ℕ → InitAttributes
  unfolding new_queue_pair
  with_completion_queues send receive =
      new_queue_pair kind send receive network.shared_receive_queue

-- `ibv::AccessFlag`, as far as the report asks for it
pub data AccessFlag : Type 0 where
  remote_write remote_read remote_atomic : AccessFlag

-- The numbers that the report asks for.
pub data Field : Type 0 where
  qkey rq_psn sq_psn dest_qp_num pkey_index alt_pkey_index en_sqd_async_notify sq_draining
        max_rd_atomic max_dest_rd_atomic min_rnr_timer port_num timeout retry_cnt rnr_retry
        alt_port_num alt_timeout :
      Field

-- What the library answers about a queue pair; its states as `to_string` puts them.
pub record Attributes : Type 0 where
  pub qp_state : String
  pub cur_qp_state : String
  pub path_mtu : String
  pub path_mig_state : String
  pub has_qp_access_flags : AccessFlag → Bool
  pub number : Field → ℕ

-- `queuePairAccessFlagsToString`
unfoldable pub access_flags_to_string : Attributes → String
access_flags_to_string attr =
    (if attr.has_qp_access_flags remote_write then "IBV_ACCESS_REMOTE_WRITE, " else "")
    ++ ((if attr.has_qp_access_flags remote_read then "IBV_ACCESS_REMOTE_READ, " else "")
        ++ (if attr.has_qp_access_flags remote_atomic then "IBV_ACCESS_REMOTE_ATOMIC, " else ""))

-- `QueuePair::printQueuePairDetails`, of the queue pair at a pointer
unfoldable pub print_queue_pair_details : ℕ → Attributes → List Line
unfolding access_flags_to_string
print_queue_pair_details qp attr =
    enclosed "[State of QP " qp "]"
    ∷ said ""
    ∷ named "qp_state:" attr.qp_state
    ∷ named "cur_qp_state:" attr.qp_state
    ∷ named "path_mtu:" attr.path_mtu
    ∷ named "path_mig_state:" attr.path_mig_state
    ∷ counted "qkey:" (attr.number qkey)
    ∷ counted "rq_psn:" (attr.number rq_psn)
    ∷ counted "sq_psn:" (attr.number sq_psn)
    ∷ counted "dest_qp_num:" (attr.number dest_qp_num)
    ∷ named "qp_access_flags:" (access_flags_to_string attr)
    ∷ named "cap:" "<not impl>"
    ∷ named "ah_attr:" "<not impl>"
    ∷ named "alt_ah_attr:" "<not impl>"
    ∷ counted "pkey_index:" (attr.number pkey_index)
    ∷ counted "alt_pkey_index:" (attr.number alt_pkey_index)
    ∷ counted "en_sqd_async_notify:" (attr.number en_sqd_async_notify)
    ∷ counted "sq_draining:" (attr.number sq_draining)
    ∷ counted "max_rd_atomic:" (attr.number max_rd_atomic)
    ∷ counted "max_dest_rd_atomic:" (attr.number max_dest_rd_atomic)
    ∷ counted "min_rnr_timer:" (attr.number min_rnr_timer)
    ∷ counted "port_num:" (attr.number port_num)
    ∷ counted "timeout:" (attr.number timeout)
    ∷ counted "retry_cnt:" (attr.number retry_cnt)
    ∷ counted "rnr_retry:" (attr.number rnr_retry)
    ∷ counted "alt_port_num:" (attr.number alt_port_num)
    ∷ counted "alt_timeout:" (attr.number alt_timeout)
    ∷ []

-- The current state of a queue pair makes no difference to the report.
pub print-cur_qp_state :
    (qp : ℕ) (attr : Attributes) (state : String)
    → print_queue_pair_details qp (record attr { cur_qp_state = state })
      ≡ print_queue_pair_details qp attr
unfolding print_queue_pair_details
print-cur_qp_state qp attr state = refl
