-- ===== src/Sockets/Tcp.antt =====
-- util/socket/tcp.cpp: the set-up of a connection. `System` stands for the calls of the kernel and
-- of the C library: `false` and `none` are errors.
use cachecoherence.Base.{ℕ, Bool, true, false, Option, none, some, Run, ok, stop, threw, List}

-- `sockaddr_in`
pub record Address : Type 0 where
  pub family : ℕ
  pub port : ℕ
  pub addr : ℕ

pub record System : Type 0 where
  pub connect : ℕ → Address → Bool
  pub bind : ℕ → Address → Bool
  pub listen : ℕ → Bool
  pub accept : ℕ → Option ℕ
  pub inet_pton : List ℕ → Option ℕ
  pub htons : ℕ → ℕ

-- AF_INET and INADDR_ANY
abbrev pub af_inet : ℕ
af_inet = 2

abbrev pub inaddr_any : ℕ
inaddr_any = 0

abbrev pub check : Bool → Run (Unit {0})
check true = ok tt
check false = stop threw

module _ (system : System) where
  -- `tcp::connect` to an address
  unfoldable pub connect_address : ℕ → Address → Run (Unit {0})
  connect_address sock dest = check (system.connect sock dest)

  -- `tcp::connect` to a host by its text; `inet_pton` leaves the zeroed field as it is where the text
  -- is no address
  unfoldable pub connect : ℕ → List ℕ → ℕ → Run (Unit {0})
  unfolding connect_address
  connect sock ip port = connect_address sock (record {
    family = af_inet;
    port = system.htons port;
    addr = elim (system.inet_pton ip) [ none ↦ 0 | some a ↦ a ];
  })

  -- `tcp::bind` to an address
  unfoldable pub bind_address : ℕ → Address → Run (Unit {0})
  bind_address sock addr = check (system.bind sock addr)

  -- `tcp::bind` to a port
  unfoldable pub bind : ℕ → ℕ → Run (Unit {0})
  unfolding bind_address
  bind sock port =
      bind_address sock (record { family = af_inet; port = system.htons port; addr = inaddr_any })

  -- `tcp::listen`
  unfoldable pub listen : ℕ → Run (Unit {0})
  listen sock = check (system.listen sock)

  -- `tcp::accept`, the raw descriptor of the socket returned
  unfoldable pub accept : ℕ → Run ℕ
  accept sock = elim (system.accept sock) [ none ↦ stop threw | some acced ↦ ok acced ]
