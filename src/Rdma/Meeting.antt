-- ===== src/Rdma/Meeting.antt =====
-- What the two ends of a connection learn from each other.
use cachecoherence.Base.{
  ℕ, ◌≡◌, List, [], ◌∷◌, All, map, length, length-append, ok, arith, append-nil,
}
use cachecoherence.Sockets.Stream.{takes, gives}
use cachecoherence.Sockets.Delivery.{sum, concat, IsPositive, IsFull, write-sends, read-chunks}
use cachecoherence.Rdma.Modify.{Address, rc_connect}
use cachecoherence.Rdma.Layout.{Fit, encode, decode-encode, length-encode}
use cachecoherence.Rdma.Exchange.{
  address_widths, address_size, address_fields, address_bytes, ibport, exchange_qpn_and_connect,
  RemoteAddress, RmrInfo, rmr_widths, rmr_size, rmr_fields, send_rmr_info, receive_and_setup_rmr,
}

abbrev pub IsAddress : Address → Type 0
IsAddress a = Fit address_widths (address_fields a)

address_length : (a : Address) → IsAddress a → length (address_bytes a) ≡ address_size
address_length a fit = omega (
  arith,
  length-append (encode address_widths (address_fields a)) (0 ∷ 0 ∷ []),
  length-encode address_widths (address_fields a) fit,
)

-- One end, whose own bytes leave and to which the bytes of the other come.
exchange_one :
    (own other : Address) (sizes : List ℕ) (chunks : List (List ℕ))
    → IsAddress own
    → IsAddress other
    → All IsPositive sizes
    → sum sizes ≡ address_size
    → All IsFull chunks
    → concat chunks ≡ address_bytes other
    → exchange_qpn_and_connect own (map takes sizes) (map gives chunks)
      ≡ ok (address_bytes own, rc_connect other ibport 0)
unfolding exchange_qpn_and_connect
exchange_one own other sizes chunks fit fit' positive whole full same =
    let n = address_length own fit in
    let m = address_length other fit' in
    let out =
      write-sends (address_bytes own) sizes [] (omega (arith, n)) positive
        (omega (arith, n, whole)) in
    let back = read-chunks (address_bytes other) chunks [] (omega (arith, m)) full same in
    ground (
      arith,
      n,
      m,
      out,
      back,
      append-nil (map takes sizes),
      append-nil (map gives chunks),
      decode-encode address_widths (address_fields other) (0 ∷ 0 ∷ []) fit',
    )

-- Two ends that exchange their addresses over a socket connect their queue pairs to each other,
-- however the system splits the bytes on the way.
pub exchange-meets :
    (a b : Address) (sizes_a sizes_b : List ℕ) (chunks_a chunks_b : List (List ℕ))
    → IsAddress a
    → IsAddress b
    → All IsPositive sizes_a
    → All IsPositive sizes_b
    → sum sizes_a ≡ address_size
    → sum sizes_b ≡ address_size
    → All IsFull chunks_a
    → All IsFull chunks_b
    → concat chunks_a ≡ address_bytes b
    → concat chunks_b ≡ address_bytes a
    → (exchange_qpn_and_connect a (map takes sizes_a) (map gives chunks_a)
        ≡ ok (concat chunks_b, rc_connect b ibport 0))
      × (exchange_qpn_and_connect b (map takes sizes_b) (map gives chunks_b)
          ≡ ok (concat chunks_a, rc_connect a ibport 0))
exchange-meets a b sizes_a sizes_b chunks_a chunks_b fit fit' p p' whole whole' full full' x y = (
  rw y (exchange_one a b sizes_a chunks_a fit fit' p whole full x),
  rw x (exchange_one b a sizes_b chunks_b fit' fit p' whole' full' y),
)

abbrev pub info_of : RemoteAddress → RemoteAddress → RmrInfo
info_of buffer read_pos = record {
  buffer_key = buffer.rkey;
  read_pos_key = read_pos.rkey;
  buffer_address = buffer.address;
  read_pos_address = read_pos.address;
}

-- The memory that one end announces is the memory that the other end then writes to: buffer and read
-- position arrive with their own address and key.
pub receive-send_rmr :
    (buffer read_pos : RemoteAddress) (sizes : List ℕ) (chunks : List (List ℕ))
    → Fit rmr_widths (rmr_fields (info_of buffer read_pos))
    → All IsPositive sizes
    → sum sizes ≡ rmr_size
    → All IsFull chunks
    → concat chunks ≡ encode rmr_widths (rmr_fields (info_of buffer read_pos))
    → (send_rmr_info buffer read_pos (map takes sizes) ≡ ok (concat chunks))
      × (receive_and_setup_rmr (map gives chunks) ≡ ok (buffer, read_pos))
unfolding send_rmr_info receive_and_setup_rmr
receive-send_rmr buffer read_pos sizes chunks fit positive whole full same =
    let fields = rmr_fields (info_of buffer read_pos) in
    let bytes = encode rmr_widths fields in
    let n = length-encode rmr_widths fields fit in
    let out = write-sends bytes sizes [] (omega (arith, n)) positive (omega (arith, n, whole)) in
    let back = read-chunks bytes chunks [] (omega (arith, n)) full same in
    let known = decode-encode rmr_widths fields [] fit in
    ground (
      arith,
      n,
      out,
      back,
      same,
      known,
      append-nil bytes,
      append-nil (map takes sizes),
      append-nil (map gives chunks),
    )
