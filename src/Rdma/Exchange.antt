-- ===== src/Rdma/Exchange.antt =====
-- util/RDMANetworking.h and util/RDMANetworking.cpp: the addresses that two ends exchange over a
-- socket before they connect their queue pairs, and what they tell each other of their memory. The
-- two structs go out as they stand in memory; `Address` has two bytes of padding at its end.
use cachecoherence.Base.{ℕ, List, [], ◌∷◌, ◌++◌, get_or, Run, ok, ◌>>=◌}
use cachecoherence.Sockets.Stream.{Sent, Received, write, read}
use cachecoherence.Rdma.Modify.{Address, Modify, rc_connect}
use cachecoherence.Rdma.Layout.{encode, decode}

-- The fields of `Address`: the two halves of `gid`, `qpn` and `lid`.
abbrev pub address_widths : List ℕ
address_widths = 8 ∷ 8 ∷ 4 ∷ 2 ∷ []

abbrev pub address_size : ℕ
address_size = 24

abbrev pub address_fields : Address → List ℕ
address_fields a = a.gid.subnet_prefix ∷ a.gid.interface_id ∷ a.qpn ∷ a.lid ∷ []

abbrev pub address_bytes : Address → List ℕ
address_bytes a = encode address_widths (address_fields a) ++ 0 ∷ 0 ∷ []

abbrev pub address_of_fields : List ℕ → Address
address_of_fields fields = record {
  gid = record { subnet_prefix = get_or fields 0 0; interface_id = get_or fields 1 0 };
  qpn = get_or fields 2 0;
  lid = get_or fields 3 0;
}

-- `Network::ibport`, the default port of a queue pair
abbrev pub ibport : ℕ
ibport = 1

-- `exchangeQPNAndConnect`: the bytes that go out, and the calls that connect the queue pair.
unfoldable pub exchange_qpn_and_connect :
    Address → List Sent → List Received → Run (List ℕ × List Modify)
unfolding write read rc_connect
exchange_qpn_and_connect own sends receives = do
  (out, _) ← write (address_bytes own) 0 address_size sends
  (incoming, _) ← read address_size receives
  let addr = address_of_fields (decode address_widths incoming)
  ok (out, rc_connect addr ibport 0)

-- `ibv::memoryregion::RemoteAddress`
pub record RemoteAddress : Type 0 where
  pub address : ℕ
  pub rkey : ℕ

-- `RmrInfo`
pub record RmrInfo : Type 0 where
  pub buffer_key : ℕ
  pub read_pos_key : ℕ
  pub buffer_address : ℕ
  pub read_pos_address : ℕ

abbrev pub rmr_widths : List ℕ
rmr_widths = 4 ∷ 4 ∷ 8 ∷ 8 ∷ []

abbrev pub rmr_size : ℕ
rmr_size = 24

abbrev pub rmr_fields : RmrInfo → List ℕ
rmr_fields i = i.buffer_key ∷ i.read_pos_key ∷ i.buffer_address ∷ i.read_pos_address ∷ []

abbrev pub rmr_of_fields : List ℕ → RmrInfo
rmr_of_fields fields = record {
  buffer_key = get_or fields 0 0;
  read_pos_key = get_or fields 1 0;
  buffer_address = get_or fields 2 0;
  read_pos_address = get_or fields 3 0;
}

-- `sendRmrInfo`, of memory regions by address and key: the bytes that go out
unfoldable pub send_rmr_info : RemoteAddress → RemoteAddress → List Sent → Run (List ℕ)
unfolding write
send_rmr_info buffer read_pos sends = do
  let rmr_info : RmrInfo = record {
    buffer_key = buffer.rkey;
    read_pos_key = read_pos.rkey;
    buffer_address = buffer.address;
    read_pos_address = read_pos.address;
  }
  (out, _) ← write (encode rmr_widths (rmr_fields rmr_info)) 0 rmr_size sends
  ok out

-- `receiveAndSetupRmr`: the buffer and the read position
unfoldable pub receive_and_setup_rmr : List Received → Run (RemoteAddress × RemoteAddress)
unfolding read
receive_and_setup_rmr receives = do
  (incoming, _) ← read rmr_size receives
  let rmr_info = rmr_of_fields (decode rmr_widths incoming)
  ok (
    record { address = rmr_info.buffer_address; rkey = rmr_info.buffer_key },
    record { address = rmr_info.read_pos_address; rkey = rmr_info.read_pos_key },
  )
