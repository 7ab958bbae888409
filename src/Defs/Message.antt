-- ===== src/Defs/Message.antt =====
-- util/defs.h: the data that the nodes exchange, and the states that they keep.
-- A field that the source calls `data` is `value` here.
use cachecoherence.Base.{ℕ, ◌≡◌, ◌↔◌, arith, List, Option, none, some, ◌==◌, if◌then◌else◌}
use cachecoherence.Defs.Address.{SendGlobalAddr, GlobalAddress}
use cachecoherence.Defs.Address

pub record SendingData : Type 0 where
  pub size : ℕ
  pub value : ℕ
  pub sga : SendGlobalAddr

pub record Data : Type 0 where
  pub size : ℕ
  pub value : ℕ
  pub ga : GlobalAddress

-- `Data::sendable`
unfoldable pub sendable : Data → ℕ → SendingData
unfolding Address.sendable
sendable d id = record { size = d.size; value = d.value; sga = Address.sendable d.ga id }

-- the explicit constructor `Data(SendingData)`
unfoldable pub of_sendable : SendingData → Data
unfolding Address.of_sendable
of_sendable s = record { size = s.size; value = s.value; ga = Address.of_sendable s.sga }

-- CACHE_DIRECTORY_STATE: the field `iscached` is read from raw memory, so it is a number.
abbrev pub unshared : ℕ
unshared = 0

abbrev pub shared : ℕ
shared = 1

abbrev pub exclus : ℕ
exclus = 2

pub record SaveData : Type 0 where
  pub value : ℕ
  pub iscached : ℕ
  pub owner_node : ℕ
  pub sharer_nodes : List ℕ

-- LOCK_STATES
pub data LockState : Type 0 where
  unlocked shared_lock exclusive : LockState

pub record Lock : Type 0 where
  pub id : ℕ
  pub state : LockState

-- IMMDATA
pub data ImmData : Type 0 where
  default malloc read free write locks reset invalidate : ImmData

unfoldable pub imm_code : ImmData → ℕ
imm_code default = 0
imm_code malloc = 1
imm_code read = 2
imm_code free = 3
imm_code write = 4
imm_code locks = 5
imm_code reset = 6
imm_code invalidate = 7

-- The cases of a `switch` on the immediate data of a completion; a code of no case is `none`.
unfoldable pub of_code : ℕ → Option ImmData
of_code n =
    if n == 0
    then some default
    else (if n == 1
        then some malloc
        else (if n == 2
            then some read
            else (if n == 3
                then some free
                else (if n == 4
                    then some write
                    else (if n == 5
                        then some locks
                        else (if n == 6
                            then some reset
                            else (if n == 7 then some invalidate else none)))))))

-- The cases of the switch are exactly the codes of the enumeration, each under its own name.
pub of_code-imm_code : (c : ℕ) (i : ImmData) → (of_code c ≡ some i) ↔ (imm_code i ≡ c)
unfolding of_code imm_code
of_code-imm_code c default = ground arith
of_code-imm_code c malloc = ground arith
of_code-imm_code c read = ground arith
of_code-imm_code c free = ground arith
of_code-imm_code c write = ground arith
of_code-imm_code c locks = ground arith
of_code-imm_code c reset = ground arith
of_code-imm_code c invalidate = ground arith
