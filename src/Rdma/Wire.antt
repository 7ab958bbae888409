-- ===== src/Rdma/Wire.antt =====
-- util/defs.h: the packed structs as they lie in the buffers of src/Send.cpp and src/Receive.cpp, each
-- field after the one before it. A buffer may hold more bytes than those of the struct.
use cachecoherence.Base.{
  ℕ, ◌≡◌, refl, ◌∙◌, Bool, not, ◌==◌, if◌then◌else◌, Option, none, some, List, [], ◌∷◌, ◌++◌,
  get_or, length, ok, arith,
}
use cachecoherence.Defs.Address.{SendGlobalAddr, GlobalAddress, of_sendable}
use cachecoherence.Defs.Message.{SendingData, LockState, unlocked, shared_lock, exclusive, Lock}
use cachecoherence.Node.State.{
  Payload, address, address_head, content, lock, flag, word, Node, as_address, as_global,
  as_content, as_lock, as_flag, as_word,
}
use cachecoherence.Rdma.Layout.{total, encode, decode, Fit, decode-encode, length-encode}
use cachecoherence.Rdma.Posting.{size_of}

-- `LOCK_STATES`, an `enum` of four bytes
unfoldable pub lock_code : LockState → ℕ
lock_code unlocked = 0
lock_code shared_lock = 1
lock_code exclusive = 2

unfoldable pub lock_state : ℕ → Option LockState
lock_state c =
    if c == 0
    then some unlocked
    else (if c == 1 then some shared_lock else (if c == 2 then some exclusive else none))

-- The sizes of the fields.
abbrev pub address_widths : List ℕ
address_widths = 8 ∷ 8 ∷ 2 ∷ 2 ∷ []

abbrev pub global_widths : List ℕ
global_widths = 8 ∷ 8 ∷ 2 ∷ []

abbrev pub content_widths : List ℕ
content_widths = 8 ∷ 8 ∷ 8 ∷ 8 ∷ 2 ∷ 2 ∷ []

abbrev pub lock_widths : List ℕ
lock_widths = 2 ∷ 4 ∷ []

abbrev pub widths_of : Payload → List ℕ
widths_of (address a) = address_widths
widths_of (address_head g) = global_widths
widths_of (content d) = content_widths
widths_of (lock l) = lock_widths
widths_of (flag b) = 1 ∷ []
widths_of (word w) = 8 ∷ []

unfoldable pub fields_of : Payload → List ℕ
unfolding lock_code
fields_of (address a) = a.size ∷ a.ptr ∷ a.id ∷ a.src_id ∷ []
fields_of (address_head g) = g.size ∷ g.ptr ∷ g.id ∷ []
fields_of (content d) = d.size ∷ d.value ∷ d.sga.size ∷ d.sga.ptr ∷ d.sga.id ∷ d.sga.src_id ∷ []
fields_of (lock l) = l.id ∷ lock_code l.state ∷ []
fields_of (flag b) = (if b then 1 else 0) ∷ []
fields_of (word w) = w ∷ []

abbrev pub bytes_of : Payload → List ℕ
bytes_of x = encode (widths_of x) (fields_of x)

-- What a buffer reads as.
abbrev pub address_at : List ℕ → SendGlobalAddr
address_at bytes =
    let f = decode address_widths bytes in
    record { size = get_or f 0 0; ptr = get_or f 1 0; id = get_or f 2 0; src_id = get_or f 3 0 }

abbrev pub global_at : List ℕ → GlobalAddress
global_at bytes =
    let f = decode global_widths bytes in
    record { size = get_or f 0 0; ptr = get_or f 1 0; id = get_or f 2 0 }

abbrev pub content_at : List ℕ → SendingData
content_at bytes =
    let f = decode content_widths bytes in
    record {
      size = get_or f 0 0;
      value = get_or f 1 0;
      sga = record {
        size = get_or f 2 0;
        ptr = get_or f 3 0;
        id = get_or f 4 0;
        src_id = get_or f 5 0;
      };
    }

abbrev pub lock_at : List ℕ → ℕ × Option LockState
lock_at bytes = let f = decode lock_widths bytes in (get_or f 0 0, lock_state (get_or f 1 0))

abbrev pub flag_at : List ℕ → Bool
flag_at bytes = not (get_or (decode (1 ∷ []) bytes) 0 0 == 0)

abbrev pub word_at : List ℕ → ℕ
word_at bytes = get_or (decode (8 ∷ []) bytes) 0 0

-- Whatever follows in the buffer, the casts of `Node/State` get what the bytes say.
abbrev pub ReadsAs : Payload → List ℕ → Type 0
ReadsAs x bytes =
    (n : Node)
    → ((a : SendGlobalAddr) → as_address x n ≡ ok (a, n) → address_at bytes ≡ a)
      × ((g : GlobalAddress) → as_global x n ≡ ok (g, n) → of_sendable (address_at bytes) ≡ g)
      × ((d : SendingData) → as_content x n ≡ ok (d, n) → content_at bytes ≡ d)
      × ((l : Lock) → as_lock x n ≡ ok (l, n) → lock_at bytes ≡ (l.id, some l.state))
      × ((b : Bool) → as_flag x n ≡ ok (b, n) → flag_at bytes ≡ b)
      × ((w : ℕ) → as_word x n ≡ ok (w, n) → word_at bytes ≡ w)

-- An address without its last field is the first part of one with it.
of_sendable-address_at : (bytes : List ℕ) → of_sendable (address_at bytes) ≡ global_at bytes
unfolding of_sendable
of_sendable-address_at bytes = refl

bytes_of-ReadsAs :
    (x : Payload) (rest : List ℕ) → Fit (widths_of x) (fields_of x) → ReadsAs x (bytes_of x ++ rest)
unfolding fields_of lock_state of_sendable
bytes_of-ReadsAs (address a) rest fit n =
    ground (arith, decode-encode address_widths (fields_of (address a)) rest fit)
bytes_of-ReadsAs (address_head g) rest fit n = ground (
  arith,
  of_sendable-address_at (bytes_of (address_head g) ++ rest),
  decode-encode global_widths (fields_of (address_head g)) rest fit,
)
bytes_of-ReadsAs (content d) rest fit n =
    ground (arith, decode-encode content_widths (fields_of (content d)) rest fit)
bytes_of-ReadsAs (lock l) rest fit n =
    ground (arith, decode-encode lock_widths (fields_of (lock l)) rest fit)
bytes_of-ReadsAs (flag b) rest fit n =
    ground (arith, decode-encode (1 ∷ []) (fields_of (flag b)) rest fit)
bytes_of-ReadsAs (word w) rest fit n =
    ground (arith, decode-encode (8 ∷ []) (fields_of (word w)) rest fit)

size_of-total : (x : Payload) → total (widths_of x) ≡ size_of x
size_of-total (address a) = refl
size_of-total (address_head g) = refl
size_of-total (content d) = refl
size_of-total (lock l) = refl
size_of-total (flag b) = refl
size_of-total (word w) = refl

-- What a node sends, with fields within their sizes, has the size that the code gives, and wherever one of the casts of the receiver is
-- defined on it, the bytes that arrive, whatever else the buffer holds behind them, are read as the
-- value that was sent; so also an address of which only
-- the first 18 bytes are sent.
pub bytes_of-casts :
    (x : Payload) (rest : List ℕ)
    → Fit (widths_of x) (fields_of x)
    → (length (bytes_of x) ≡ size_of x) × ReadsAs x (bytes_of x ++ rest)
bytes_of-casts x rest fit =
    (length-encode (widths_of x) (fields_of x) fit ∙ size_of-total x, bytes_of-ReadsAs x rest fit)
