-- ===== src/Rdma/Report.antt =====
-- rdma/Network.cpp: the report on the devices, as the lines that it prints, without their columns. A
-- device is what the library answers about it.
use cachecoherence.Base.{ℕ, Bool, List, [], ◌∷◌, ◌++◌, if◌then◌else◌}
use Prim.Native.String.{String}

-- `ibv::device::CapabilityFlag`, as far as the report asks for it
pub data CapabilityFlag : Type 0 where
  resize_max_wr bad_pkey_cntr bad_qkey_cntr raw_multi auto_path_mig change_phy_port
        ud_av_port_enforce curr_qp_state_mod shutdown_port init_type port_active_event
        sys_image_guid rc_rnr_nak_gen srq_resize n_notify_cq :
      CapabilityFlag

-- `ibv::device::AtomicCapabilities`
pub data AtomicCapabilities : Type 0 where
  none hca glob : AtomicCapabilities

-- The numbers that the report asks a device for.
pub data Quantity : Type 0 where
  vendor_id vendor_part_id hw_ver fw_ver phys_port_cnt local_ca_ack_delay max_mr_size page_size_cap
        max_qp max_qp_wr max_sge max_cq max_cqe max_pd max_mr max_ah max_pkeys max_mcast_grp
        max_mcast_qp_attach max_total_mcast_qp_attach max_qp_rd_atom max_res_rd_atom
        max_qp_init_rd_atom max_sge_rd max_ee max_rdd max_ee_rd_atom max_ee_init_rd_atom max_mw
        max_fmr max_map_per_fmr max_srq max_srq_wr max_srq_sge max_raw_ipv6_qp max_raw_ethy_qp :
      Quantity

pub record Device : Type 0 where
  pub name : String
  pub guid : ℕ
  pub number : Quantity → ℕ
  pub has_capability : CapabilityFlag → Bool
  pub atomic_cap : AtomicCapabilities

-- A line: a heading, a text, a label with a text or a number, or a number between two texts.
pub data Line : Type 0 where
  heading said : String → Line
  named : String → String → Line
  counted : String → ℕ → Line
  enclosed : String → ℕ → String → Line

-- The text of a capability.
unfoldable pub capability_text : CapabilityFlag → String
capability_text resize_max_wr =
    "  The device supports modifying the maximum number of outstanding Work Requests of a QP"
capability_text bad_pkey_cntr = "  The device supports bad P_Key counting for each port"
capability_text bad_qkey_cntr = "  The device supports P_Key violations counting for each port"
capability_text raw_multi = "  The device supports raw packet multicast"
capability_text auto_path_mig = "  The device supports automatic path migration"
capability_text change_phy_port =
    "  The device supports changing the primary port number of a QP when transitioning from SQD to SQD state"
capability_text ud_av_port_enforce = "  The device supports AH port number enforcement"
capability_text curr_qp_state_mod =
    "  The device supports the Current QP state modifier when calling ibv_modify_qp()"
capability_text shutdown_port = "  The device supports shutdown port"
capability_text init_type = "  The device supports setting InitType and InitTypeReply"
capability_text port_active_event =
    "  The device supports the IBV_EVENT_PORT_ACTIVE event generation"
capability_text sys_image_guid = "  The device supports System Image GUID"
capability_text rc_rnr_nak_gen = "  The device supports RNR-NAK generation for RC QPs"
capability_text srq_resize =
    "  The device supports modifying the maximum number of outstanding Work Requests in an SRQ"
capability_text n_notify_cq =
    "  The device supports Requesting Completion notification when N completions were added (and not only one) to a CQ"

abbrev pub asked_flags : List CapabilityFlag
asked_flags =
    resize_max_wr ∷ bad_pkey_cntr ∷ bad_qkey_cntr ∷ raw_multi ∷ auto_path_mig ∷ change_phy_port
    ∷ ud_av_port_enforce ∷ curr_qp_state_mod ∷ shutdown_port ∷ init_type ∷ port_active_event
    ∷ sys_image_guid ∷ rc_rnr_nak_gen ∷ srq_resize ∷ n_notify_cq ∷ []

-- the lines of `[Capabilities]`: each flag that the device has
unfoldable pub capability_lines : List CapabilityFlag → Device → List Line
unfolding capability_text
capability_lines [] d = []
capability_lines (f ∷ flags) d =
    let rest = capability_lines flags d in
    if d.has_capability f then said (capability_text f) ∷ rest else rest

-- the `switch` of `[Atomics]`
unfoldable pub atomic_text : AtomicCapabilities → String
atomic_text none = "  Atomic operations aren’t supported at all"
atomic_text hca = "  Atomicity is guaranteed between QPs on this device only"
atomic_text glob =
    "  Atomicity is guaranteed between this device and any other component, such as CPUs and other devices"

unfoldable pub device_report : Device → List Line
unfolding capability_lines atomic_text
device_report d =
    (heading "[Device Information]"
      ∷ named "  Device Name: " d.name
      ∷ counted "  GUID: " d.guid
      ∷ counted "  Vendor ID: " (d.number vendor_id)
      ∷ counted "  Vendor Part ID: " (d.number vendor_part_id)
      ∷ counted "  Hardware Version: " (d.number hw_ver)
      ∷ counted "  Firmware Version: " (d.number fw_ver)
      ∷ counted "  Physical Ports: " (d.number phys_port_cnt)
      ∷ counted "  CA ACK Delay: " (d.number local_ca_ack_delay)
      ∷ heading "[Memory]"
      ∷ counted "  Max MR size: " (d.number max_mr_size)
      ∷ counted "  Max page size: " (d.number page_size_cap)
      ∷ heading "[Capabilities]"
      ∷ [])
    ++ (capability_lines asked_flags d
        ++ (heading "[Resources]"
            ∷ counted "  Max number of QPs: " (d.number max_qp)
            ∷ counted "  Max number of WRs per Queue: " (d.number max_qp_wr)
            ∷ counted "  Max number of SGE per WR: " (d.number max_sge)
            ∷ counted "  Max number of CQs: " (d.number max_cq)
            ∷ counted "  Max number of CQEs per CQ: " (d.number max_cqe)
            ∷ counted "  Max number of PDs: " (d.number max_pd)
            ∷ counted "  Max number of MRs: " (d.number max_mr)
            ∷ counted "  Max number of AHs: " (d.number max_ah)
            ∷ counted "  Max number of partitions: " (d.number max_pkeys)
            ∷ heading "[Multicast]"
            ∷ counted "  Max multicast groups: " (d.number max_mcast_grp)
            ∷ counted "  Max QPs per multicast group: " (d.number max_mcast_qp_attach)
            ∷ counted "  Max total multicast QPs: " (d.number max_total_mcast_qp_attach)
            ∷ heading "[Atomics]"
            ∷ said (atomic_text d.atomic_cap)
            ∷ counted "  Max outstanding reads/atomics per QP: " (d.number max_qp_rd_atom)
            ∷ counted "  Resources for reads/atomics: " (d.number max_res_rd_atom)
            ∷ counted "  Max depth per QP read/atomic initiation: " (d.number max_qp_init_rd_atom)
            ∷ heading "[Reliable Datagram]"
            ∷ counted "  Max number of SGEs per QP: " (d.number max_sge_rd)
            ∷ counted "  Max number of EECs: " (d.number max_ee)
            ∷ counted "  Max number of RDDs: " (d.number max_rdd)
            ∷ counted "  Max outstanding reads/atomics per EEC: " (d.number max_ee_rd_atom)
            ∷ counted "  Max depth per EEC read/atomic initiation: " (d.number max_ee_init_rd_atom)
            ∷ heading "[Memory Windows]"
            ∷ counted "  Max number of MWs: " (d.number max_mw)
            ∷ heading "[Fast Memory Registration]"
            ∷ counted "  Max number of FMRs: " (d.number max_fmr)
            ∷ counted "  Max number of maps per FMR: " (d.number max_map_per_fmr)
            ∷ heading "[Shared Receive Queues]"
            ∷ counted "  Max number of SRQs: " (d.number max_srq)
            ∷ counted "  Max number of WR per SRQ: " (d.number max_srq_wr)
            ∷ counted "  Max number of SGEs per WR: " (d.number max_srq_sge)
            ∷ heading "[Raw]"
            ∷ counted "  Max number of IPv6 QPs: " (d.number max_raw_ipv6_qp)
            ∷ counted "  Max number of Ethertype QPs: " (d.number max_raw_ethy_qp)
            ∷ []))

-- `Network::printCapabilities`
unfoldable pub print_capabilities : List Device → List Line
unfolding device_report
print_capabilities [] = []
print_capabilities (d ∷ devices) = device_report d ++ print_capabilities devices
