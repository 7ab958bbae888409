-- ===== src/Rdma/Modify.antt =====
-- rdma/RcQueuePair.cpp, rdma/UcQueuePair.cpp and rdma/UdQueuePair.cpp: how queue pairs are connected.
-- `qp->modify` is a call of the library; what is modelled are the calls, in order, each with the
-- fields of a zeroed `Attributes` that have been set, and the mask that says which ones count.
use cachecoherence.Base.{
  ℕ, Bool, true, false, Option, none, some, List, [], ◌∷◌, ◌==◌, if◌then◌else◌,
}

pub record Gid : Type 0 where
  pub subnet_prefix : ℕ
  pub interface_id : ℕ

-- rdma/Network.hpp: `rdma::Address`
pub record Address : Type 0 where
  pub gid : Gid
  pub qpn : ℕ
  pub lid : ℕ

pub data State : Type 0 where
  reset init ready_to_receive ready_to_send : State

pub data Access : Type 0 where
  remote_write remote_read remote_atomic : Access

pub record GlobalRoute : Type 0 where
  pub hop_limit : ℕ
  pub dgid : Gid

pub record AhAttributes : Type 0 where
  pub is_global : Bool
  pub dlid : ℕ
  pub sl : ℕ
  pub src_path_bits : ℕ
  pub port_num : ℕ
  pub grh : Option GlobalRoute

pub data Mask : Type 0 where
  state pkey_index port access_flags qkey av path_mtu dest_qpn rq_psn max_dest_rd_atomic
        min_rnr_timer sq_psn timeout retry_cnt rnr_retry max_qp_rd_atomic :
      Mask

pub data Setting : Type 0 where
  set_state : State → Setting
  set_access : List Access → Setting
  set_ah : AhAttributes → Setting
  set_number : Mask → ℕ → Setting

pub record Modify : Type 0 where
  pub attributes : List Setting
  pub mask : List Mask

-- The path MTU of 4096 bytes, by its size.
abbrev pub mtu_4096 : ℕ
mtu_4096 = 4096

-- The route to the other end; a host with a global id gets a global route.
unfoldable pub rc_route : Address → ℕ → AhAttributes
rc_route address at_port =
    let plain : AhAttributes = record {
      is_global = false;
      dlid = address.lid;
      sl = 0;
      src_path_bits = 0;
      port_num = at_port;
      grh = none;
    } in
    if address.gid.interface_id == 0 then plain else record plain {
      is_global = true;
      grh = some (record { hop_limit = 1; dgid = address.gid });
    }

-- `RcQueuePair::connect`
unfoldable pub rc_connect : Address → ℕ → ℕ → List Modify
unfolding rc_route
rc_connect address at_port retries =
    record {
      attributes =
          set_state init
          ∷ set_number pkey_index 0
          ∷ set_number port at_port
          ∷ set_access (remote_write ∷ remote_read ∷ remote_atomic ∷ [])
          ∷ [];
      mask = state ∷ pkey_index ∷ port ∷ access_flags ∷ [];
    }
    ∷ record {
      attributes =
          set_state ready_to_receive
          ∷ set_number path_mtu mtu_4096
          ∷ set_number dest_qpn address.qpn
          ∷ set_number rq_psn 0
          ∷ set_number max_dest_rd_atomic 16
          ∷ set_number min_rnr_timer 12
          ∷ set_ah (rc_route address at_port)
          ∷ [];
      mask = state ∷ av ∷ path_mtu ∷ dest_qpn ∷ rq_psn ∷ max_dest_rd_atomic ∷ min_rnr_timer ∷ [];
    }
    ∷ record {
      attributes =
          set_state ready_to_send
          ∷ set_number sq_psn 0
          ∷ set_number timeout 0
          ∷ set_number retry_cnt retries
          ∷ set_number rnr_retry retries
          ∷ set_number max_qp_rd_atomic 128
          ∷ [];
      mask = state ∷ timeout ∷ retry_cnt ∷ rnr_retry ∷ sq_psn ∷ max_qp_rd_atomic ∷ [];
    }
    ∷ []

-- `RcQueuePair::setToResetState`
unfoldable pub set_to_reset_state : Modify
set_to_reset_state = record { attributes = set_state reset ∷ []; mask = state ∷ [] }

-- `UcQueuePair::connect`
unfoldable pub uc_connect : Address → ℕ → List Modify
uc_connect address at_port =
    record {
      attributes =
          set_state init
          ∷ set_number pkey_index 0
          ∷ set_number port at_port
          ∷ set_access (remote_write ∷ [])
          ∷ [];
      mask = state ∷ pkey_index ∷ port ∷ access_flags ∷ [];
    }
    ∷ record {
      attributes =
          set_state ready_to_receive
          ∷ set_number path_mtu mtu_4096
          ∷ set_number dest_qpn address.qpn
          ∷ set_number rq_psn 0
          ∷ set_ah (record {
            is_global = false;
            dlid = address.lid;
            sl = 0;
            src_path_bits = 0;
            port_num = at_port;
            grh = none;
          })
          ∷ [];
      mask = state ∷ av ∷ path_mtu ∷ dest_qpn ∷ rq_psn ∷ [];
    }
    ∷ record {
      attributes = set_state ready_to_send ∷ set_number sq_psn 0 ∷ [];
      mask = state ∷ sq_psn ∷ [];
    }
    ∷ []

-- `UdQueuePair::connect`
unfoldable pub ud_connect : ℕ → ℕ → List Modify
ud_connect at_port packet_sequence_number =
    record {
      attributes =
          set_state init
          ∷ set_number pkey_index 0
          ∷ set_number port at_port
          ∷ set_number qkey 0x22222222
          ∷ [];
      mask = state ∷ pkey_index ∷ port ∷ qkey ∷ [];
    }
    ∷ record { attributes = set_state ready_to_receive ∷ []; mask = state ∷ [] }
    ∷ record {
      attributes = set_state ready_to_send ∷ set_number sq_psn packet_sequence_number ∷ [];
      mask = state ∷ sq_psn ∷ [];
    }
    ∷ []
