-- ===== src/Sockets/Domain.antt =====
-- util/socket/domain.cpp: the set-up of sockets that are named by a path, and descriptors sent over
-- them. Paths are lists of bytes. `System` stands for the calls of the kernel, by descriptor: `false`
-- and `none` are errors.
use cachecoherence.Base.{
  ℕ, zero, suc, ◌+◌, ◌-◌, Bool, true, false, Option, none, some, List, [], ◌∷◌, ◌++◌, ◌==◌, ltb,
  if◌then◌else◌, length, replicate, Run, ok, stop, threw, undefined, ◌>>=◌,
}

-- `sockaddr_un`, with the length that is passed along
pub record Address : Type 0 where
  pub family : ℕ
  pub path : List ℕ
  pub length : ℕ

-- The header of the control part of a message, with the descriptor in it.
pub record Control : Type 0 where
  pub level : ℕ
  pub kind : ℕ
  pub fd : ℕ

pub record Message : Type 0 where
  pub bytes : List ℕ
  pub control : Option Control

pub record System : Type 0 where
  pub connect : ℕ → Address → Bool
  pub bind : ℕ → Address → Bool
  pub listen : ℕ → Bool
  pub accept : ℕ → Option ℕ
  pub unlink : List ℕ → Bool
  pub sendmsg : ℕ → Message → Bool

-- AF_UNIX, SOL_SOCKET and SCM_RIGHTS, and the sizes of `sun_family` and `sun_path`
abbrev pub af_unix : ℕ
af_unix = 1

abbrev pub sol_socket : ℕ
sol_socket = 1

abbrev pub scm_rights : ℕ
scm_rights = 1

abbrev pub family_size : ℕ
family_size = 2

abbrev pub path_size : ℕ
path_size = 108

abbrev pub check : Bool → Run (Unit {0})
check true = ok tt
check false = stop threw

-- The bytes that `strncpy` writes, `n` of them.
unfoldable pub strncpy : ℕ → List ℕ → List ℕ
strncpy zero source = []
strncpy (suc n) [] = 0 ∷ strncpy n []
strncpy (suc n) (b ∷ source) =
    let rest = strncpy n source in if b == 0 then replicate (suc n) 0 else b ∷ rest

unfoldable pub strlen : List ℕ → ℕ
strlen [] = 0
strlen (b ∷ bytes) = let rest = strlen bytes in if b == 0 then 0 else suc rest

-- `sun_path` as `connect` and `bind` fill it in; a byte is written past its end where the path is as
-- long as it is, or longer.
unfoldable pub fill : List ℕ → Run (List ℕ)
unfolding strncpy
fill path =
    let n = length path in
    if ltb n path_size
    then ok (strncpy n path ++ 0 ∷ replicate (path_size - 1 - n) 0)
    else stop undefined

module _ (system : System) where
  -- `domain::listen`
  unfoldable pub listen : ℕ → Run (Unit {0})
  listen sock = check (system.listen sock)

  -- `domain::connect`, with the whole of the structure as the address
  unfoldable pub connect : ℕ → List ℕ → Run (Unit {0})
  unfolding fill
  connect sock path = do
    sun_path ← fill path
    let local : Address = record {
      family = af_unix;
      path = sun_path;
      length = family_size + path_size;
    }
    check (system.connect sock local)

  -- `domain::bind`, with the used part of the structure as the address
  unfoldable pub bind : ℕ → List ℕ → Run (Unit {0})
  unfolding fill strlen
  bind sock path = do
    sun_path ← fill path
    let local : Address = record {
      family = af_unix;
      path = sun_path;
      length = strlen sun_path + family_size;
    }
    check (system.bind sock local)

  -- `domain::unlink`
  unfoldable pub unlink : List ℕ → Run (Unit {0})
  unlink path = check (system.unlink path)

  -- `domain::accept`, the raw descriptor of the socket returned
  unfoldable pub accept : ℕ → Run ℕ
  accept sock = elim (system.accept sock) [ none ↦ stop threw | some acced ↦ ok acced ]

  -- `domain::send_fd`, with the message that is sent
  unfoldable pub send_fd : ℕ → ℕ → Run Message
  send_fd sock fd =
      let msg : Message = record {
        bytes = 0 ∷ [];
        control = some (record { level = sol_socket; kind = scm_rights; fd = fd });
      } in
      check (system.sendmsg sock msg) >>= λ _. ok msg

-- `domain::receive_fd`, with the result of `recvmsg`: an error, or the message that came in
unfoldable pub receive_fd : Option Message → Run ℕ
receive_fd none = stop threw
receive_fd (some msg) =
    if length msg.bytes == 0
    then stop threw
    else elim msg.control [ none ↦ stop threw | some cmsg ↦ ok cmsg.fd ]
