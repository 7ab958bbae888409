-- ===== src/Rdma/Handshake.antt =====
-- What the verbs interface asks of the calls that connect a queue pair: they go through the states in
-- order, and each sets the attributes that its transition needs, and no others.
use cachecoherence.Base.{
  ℕ, ◌≡◌, refl, Bool, true, false, ◌&&◌, ◌||◌, List, [], ◌∷◌, ◌==◌, Option, none, some,
}
use cachecoherence.Rdma.Modify.{
  Address, State, reset, init, ready_to_receive, ready_to_send, Mask, state, pkey_index, port,
  access_flags, qkey, av, path_mtu, dest_qpn, rq_psn, max_dest_rd_atomic, min_rnr_timer, sq_psn,
  timeout, retry_cnt, rnr_retry, max_qp_rd_atomic, Setting, set_state, set_access, set_ah,
  set_number, Modify, rc_connect, uc_connect, ud_connect,
}

-- The transports.
pub data Kind : Type 0 where
  rc uc ud : Kind

abbrev pub number : Mask → ℕ
number state = 0
number pkey_index = 4
number port = 5
number access_flags = 3
number qkey = 6
number av = 7
number path_mtu = 8
number dest_qpn = 20
number rq_psn = 12
number max_dest_rd_atomic = 17
number min_rnr_timer = 15
number sq_psn = 16
number timeout = 9
number retry_cnt = 10
number rnr_retry = 11
number max_qp_rd_atomic = 13

abbrev pub mask_of : Setting → Mask
mask_of (set_state s) = state
mask_of (set_access flags) = access_flags
mask_of (set_ah ah) = av
mask_of (set_number m n) = m

abbrev pub has : List Mask → Mask → Bool
has [] m = false
has (x ∷ mask) m = (number x == number m) || has mask m

abbrev pub contains : List Mask → List Mask → Bool
contains mask [] = true
contains mask (m ∷ ms) = has mask m && contains mask ms

abbrev pub masks : List Setting → List Mask
masks [] = []
masks (s ∷ settings) = mask_of s ∷ masks settings

-- The attributes of a transition into a state, by transport (ibv_modify_qp).
abbrev pub required : Kind → State → List Mask
required kind reset = state ∷ []
required rc init = state ∷ pkey_index ∷ port ∷ access_flags ∷ []
required rc ready_to_receive =
    state ∷ av ∷ path_mtu ∷ dest_qpn ∷ rq_psn ∷ max_dest_rd_atomic ∷ min_rnr_timer ∷ []
required rc ready_to_send = state ∷ sq_psn ∷ timeout ∷ retry_cnt ∷ rnr_retry ∷ max_qp_rd_atomic ∷ []
required uc init = state ∷ pkey_index ∷ port ∷ access_flags ∷ []
required uc ready_to_receive = state ∷ av ∷ path_mtu ∷ dest_qpn ∷ rq_psn ∷ []
required uc ready_to_send = state ∷ sq_psn ∷ []
required ud init = state ∷ pkey_index ∷ port ∷ qkey ∷ []
required ud ready_to_receive = state ∷ []
required ud ready_to_send = state ∷ sq_psn ∷ []

abbrev pub same : List Mask → List Mask → Bool
same xs ys = contains xs ys && contains ys xs

abbrev pub state_after : List Setting → Option State
state_after [] = none
state_after (set_state s ∷ settings) = some s
state_after (s ∷ settings) = state_after settings

-- One call, into a state: the mask is what the transition needs, and what has been set.
abbrev pub IsCall : Kind → State → Modify → Type 0
IsCall kind to call =
    (state_after call.attributes ≡ some to)
    × (same call.mask (required kind to) ≡ true)
    × (same call.mask (masks call.attributes) ≡ true)

abbrev pub IsHandshake : Kind → List State → List Modify → Type 0
IsHandshake kind [] [] = Unit
IsHandshake kind (s ∷ states) (call ∷ calls) = IsCall kind s call × IsHandshake kind states calls
IsHandshake kind _ _ = ⊥

-- Each kind of queue pair is taken through INIT and RTR to RTS, by calls that set exactly the
-- attributes that the transition needs on its transport and that their masks name, whatever the
-- address, the port, the number of retries and the sequence number.
pub connect-IsHandshake :
    (address : Address) (at_port retries psn : ℕ)
    → let way = init ∷ ready_to_receive ∷ ready_to_send ∷ [] in
      IsHandshake rc way (rc_connect address at_port retries)
      × IsHandshake uc way (uc_connect address at_port)
      × IsHandshake ud way (ud_connect at_port psn)
unfolding rc_connect uc_connect ud_connect
connect-IsHandshake address at_port retries psn = (
  ((refl, refl, refl), ((refl, refl, refl), ((refl, refl, refl), tt))),
  ((refl, refl, refl), ((refl, refl, refl), ((refl, refl, refl), tt))),
  ((refl, refl, refl), ((refl, refl, refl), ((refl, refl, refl), tt))),
)
