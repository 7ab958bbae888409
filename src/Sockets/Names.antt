-- ===== src/Sockets/Names.antt =====
-- The names that sockets are bound to and connected to.
use cachecoherence.Base.{
  ℕ, ◌+◌, ◌-◌, ◌<◌, ◌≤◌, ◌≡◌, ◌↔◌, refl, true, none, some, List, [], ◌∷◌, ◌++◌, All, length,
  replicate, ok, stop, undefined, Returns, arith,
}
use cachecoherence.Sockets.Domain.{
  Control, Message, System, family_size, path_size, check, strncpy, strlen, fill, connect, bind,
  send_fd, receive_fd, sol_socket, scm_rights, af_unix,
}
use cachecoherence.Sockets.Tcp

abbrev pub IsByte : ℕ → Type 0
IsByte b = 0 < b

strncpy-same : (path : List ℕ) → All IsByte path → strncpy (length path) path ≡ path
unfolding strncpy
strncpy-same [] all = refl
strncpy-same (b ∷ path) (positive, all) = ground (arith, strncpy-same path all)

strlen-terminated : (path rest : List ℕ) → All IsByte path → strlen (path ++ 0 ∷ rest) ≡ length path
unfolding strlen
strlen-terminated [] rest all = refl
strlen-terminated (b ∷ path) rest (positive, all) = ground (arith, strlen-terminated path rest all)

-- A path is bound under its own name: the address is the path, followed by zeros, and its length
-- ends it where the path does. A client that connects to the path gives the same bytes.
pub bind-path :
    (system : System) (sock : ℕ) (path : List ℕ)
    → All IsByte path
    → length path < path_size
    → Returns (fill path) λ sun_path.
      (sun_path ≡ path ++ 0 ∷ replicate (path_size - 1 - length path) 0)
      × (bind system sock path
          ≡ check (
              system.bind sock
                (record { family = af_unix; path = sun_path; length = length path + family_size })))
      × (connect system sock path
          ≡ check (
              system.connect sock
                (record { family = af_unix; path = sun_path; length = family_size + path_size })))
unfolding bind connect fill
bind-path system sock path all short =
    let zeros = replicate (path_size - 1 - length path) 0 in
    (
      path ++ 0 ∷ zeros,
      ground (arith, strncpy-same path all),
      (
        refl,
        ground (arith, strncpy-same path all, strlen-terminated path zeros all),
        ground (arith, strncpy-same path all),
      ),
    )

-- `bind` and `connect` write past the end of `sun_path` exactly for the paths of 108 bytes or more,
-- whatever the system would answer.
pub bind-overflow :
    (system : System) (sock : ℕ) (path : List ℕ)
    → ((bind system sock path ≡ stop undefined) ↔ (path_size ≤ length path))
      × ((connect system sock path ≡ stop undefined) ↔ (path_size ≤ length path))
unfolding bind connect fill
bind-overflow system sock path = ground arith

-- A descriptor that is sent over a socket is what the other end receives, as the kernel numbers it
-- there; `delivered` is what the kernel makes of a message.
pub receive_fd-send_fd :
    (system : System) (delivered : Message → Message) (renumbered : ℕ → ℕ) (sock fd : ℕ)
    → ((m : Message) → (delivered m).bytes ≡ m.bytes)
    → ((m : Message) (c : Control)
        → m.control ≡ some c
        → c.kind ≡ scm_rights
        → (delivered m).control ≡ some (record c { fd = renumbered c.fd }))
    → ((m : Message) → system.sendmsg sock m ≡ true)
    → Returns (send_fd system sock fd) λ m. receive_fd (some (delivered m)) ≡ ok (renumbered fd)
unfolding send_fd receive_fd
receive_fd-send_fd system delivered renumbered sock fd bytes control sent =
    let c : Control = record { level = sol_socket; kind = scm_rights; fd = fd } in
    let m : Message = record { bytes = 0 ∷ []; control = some c } in
    (m, ground (arith, sent m), ground (arith, bytes m, control m c refl refl))

-- The text of a host that is no address is taken for the address zero, without an error: `connect`
-- does what it does for any text that stands for that address.
pub connect-unparsed :
    (system : Tcp.System) (sock port : ℕ) (ip any : List ℕ)
    → system.inet_pton ip ≡ none
    → system.inet_pton any ≡ some Tcp.inaddr_any
    → Tcp.connect system sock ip port ≡ Tcp.connect system sock any port
unfolding Tcp.connect
connect-unparsed system sock port ip any unparsed zero_address =
    ground (arith, unparsed, zero_address)
