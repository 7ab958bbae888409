-- ===== src/Tests/Links.antt =====
-- Queue pairs: the theorems at concrete inputs.
use cachecoherence.Base.{
  ◌≤◌, ◌↔◌, ◌||◌, length, ◌≡◌, refl, true, none, some, [], ◌∷◌, ◌++◌, arith, replicate, ok, take,
  drop, Returns,
}
use cachecoherence.Defs.Message.{ImmData}
use cachecoherence.Defs.Address
use cachecoherence.Rdma.Device.{create_write_with_imm, new_queue_pair}
use cachecoherence.Rdma.Posting.{size_of, sum, posted_size, with_object, posted-fits}
use cachecoherence.Tests.Data.{large}
use cachecoherence.Sockets.Stream.{takes, gives}
use cachecoherence.Rdma.Modify.{
  Address, init, ready_to_receive, ready_to_send, rc_connect, uc_connect, ud_connect,
}
use cachecoherence.Rdma.Handshake.{rc, uc, ud, IsHandshake, connect-IsHandshake}
use cachecoherence.Rdma.Completion.{
  Completion, poll_completion_queue, poll_completion_queue_blocking,
}
use cachecoherence.Rdma.Polling.{Reports, poll-blocking}
use cachecoherence.Rdma.Layout.{encode}
use cachecoherence.Rdma.Exchange.{
  address_bytes, RemoteAddress, rmr_widths, rmr_fields, send_rmr_info, receive_and_setup_rmr,
}
use cachecoherence.Rdma.Wire.{bytes_of, fields_of, ReadsAs, bytes_of-casts}
use cachecoherence.Rdma.Networking.{Surroundings, rdma_networking, IsSetUp, rdma_networking-IsSetUp}
use cachecoherence.Node.State.{address}
use cachecoherence.Rdma.Meeting.{IsAddress, info_of, receive-send_rmr}

abbrev pub near : Address
near = record { gid = record { subnet_prefix = 0; interface_id = 0 }; qpn = 300; lid = 7 }

abbrev pub far : Address
far = record { gid = record { subnet_prefix = 65536; interface_id = 9 }; qpn = 70000; lid = 8 }

connect-IsHandshake_example :
    IsHandshake rc (init ∷ ready_to_receive ∷ ready_to_send ∷ []) (rc_connect far 1 7)
    × IsHandshake uc (init ∷ ready_to_receive ∷ ready_to_send ∷ []) (uc_connect far 1)
    × IsHandshake ud (init ∷ ready_to_receive ∷ ready_to_send ∷ []) (ud_connect 1 5)
connect-IsHandshake_example = connect-IsHandshake far 1 7 5

abbrev pub write_done : Completion
write_done = record { success = true; opcode = 1; id = 42 }

poll-blocking_example :
    let r = poll_completion_queue_blocking 1 (replicate 1000 none ++ some write_done ∷ none ∷ []) in
    (r ≡ poll_completion_queue 1 (some write_done ∷ none ∷ []))
    × (r.1 ≡ none ∷ [])
    × Reports 1 write_done r.0
poll-blocking_example = poll-blocking 1 1000 write_done (none ∷ [])

near-IsAddress : IsAddress near
near-IsAddress = (omega arith, (omega arith, (omega arith, (omega arith, tt))))

far-IsAddress : IsAddress far
far-IsAddress = (omega arith, (omega arith, (omega arith, (omega arith, tt))))

abbrev pub ring : RemoteAddress
ring = record { address = 4096; rkey = 17 }

abbrev pub position : RemoteAddress
position = record { address = 8192; rkey = 18 }

receive-send_rmr_example :
    (send_rmr_info ring position (takes 24 ∷ [])
      ≡ ok (encode rmr_widths (rmr_fields (info_of ring position))))
    × (receive_and_setup_rmr (gives (encode rmr_widths (rmr_fields (info_of ring position))) ∷ [])
        ≡ ok (ring, position))
receive-send_rmr_example =
    receive-send_rmr ring position (24 ∷ [])
      (encode rmr_widths (rmr_fields (info_of ring position)) ∷ [])
      (omega arith, (omega arith, (omega arith, (omega arith, tt)))) (omega arith, tt) refl
      (omega arith, tt) refl

posted-fits_example :
    let request = create_write_with_imm 530 5 ImmData.read in
    let pair = new_queue_pair 2 0 1 0 in
    (length request.slices ≤ pair.capabilities.max_send_sge)
    × ((sum request.slices ≤ pair.capabilities.max_inline_data) ↔ (510 ≤ 492))
    × ((request.is_signaled || pair.signal_all) ≡ true)
unfolding posted_size Address.sendable
posted-fits_example =
    posted-fits (with_object (Address.sendable large 1000)) ImmData.read 5 2 0 1 0 (omega arith)

-- A whole address, with two bytes behind it in the buffer.
bytes_of-casts_example :
    (length (bytes_of (address (Address.sendable large 1000)))
      ≡ size_of (address (Address.sendable large 1000)))
    × ReadsAs
        (address (Address.sendable large 1000))
        (bytes_of (address (Address.sendable large 1000)) ++ 170 ∷ 170 ∷ [])
unfolding Address.sendable fields_of
bytes_of-casts_example =
    bytes_of-casts (address (Address.sendable large 1000)) (170 ∷ 170 ∷ [])
      (omega arith, (omega arith, (omega arith, (omega arith, tt))))

-- Two ends, whose sockets are not blocking.
abbrev around_of : Address → Surroundings
around_of a = record {
  devices = 4 ∷ [];
  shared_queues = record { send_queue = 1; receive_queue = 2; shared_receive_queue = 3 };
  new_send_queue = 5;
  new_receive_queue = 6;
  new_number = a.qpn;
  port_lid = λ port. a.lid;
  port_gid = λ port index. a.gid;
  get_flags = λ sock. some 2050;
}

rdma_networking-IsSetUp_example :
    Returns
      (rdma_networking (around_of near) 3 (takes 24 ∷ []) (gives (address_bytes far) ∷ []))
      (IsSetUp (around_of near) 4 far)
    × Returns
        (rdma_networking
          (around_of far)
          9
          (takes 10 ∷ takes 14 ∷ [])
          (gives (take 4 (address_bytes near)) ∷ gives (drop 4 (address_bytes near)) ∷ []))
        (IsSetUp (around_of far) 4 near)
rdma_networking-IsSetUp_example =
    rdma_networking-IsSetUp (around_of near) (around_of far) 4 4 3 9 2050 2050 (24 ∷ [])
      (10 ∷ 14 ∷ []) (address_bytes far ∷ [])
      (take 4 (address_bytes near) ∷ drop 4 (address_bytes near) ∷ []) refl refl refl refl
      near-IsAddress far-IsAddress (omega arith, tt) (omega arith, (omega arith, tt)) refl refl
      (omega arith, tt) (omega arith, (omega arith, tt)) refl refl
