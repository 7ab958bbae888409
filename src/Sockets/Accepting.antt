-- ===== src/Sockets/Accepting.antt =====
-- util/socket/tcp.cpp and util/socket/domain.cpp: accepting a connection together with the address of
-- the peer, and the mode of a socket. The calls of the kernel are parameters; `none` is an error.
use cachecoherence.Base.{
  ℕ, ◌-◌, ◌*◌, ◌/◌, ◌%◌, ◌^◌, ◌≡◌, Option, none, some, Run, ok, stop, threw, arith,
}
use cachecoherence.Sockets.Tcp
use cachecoherence.Sockets.Domain

-- `tcp::accept` that fills in the address: the raw descriptor of the socket returned, and the address
unfoldable pub tcp_accept : (ℕ → Option (ℕ × Tcp.Address)) → ℕ → Run (ℕ × Tcp.Address)
tcp_accept kernel sock = elim (kernel sock) [ none ↦ stop threw | some acced ↦ ok acced ]

-- `domain::accept` that fills in the address
unfoldable pub domain_accept : (ℕ → Option (ℕ × Domain.Address)) → ℕ → Run (ℕ × Domain.Address)
domain_accept kernel sock = elim (kernel sock) [ none ↦ stop threw | some acced ↦ ok acced ]

-- The bit of `O_NONBLOCK` on Linux.
abbrev pub o_nonblock : ℕ
o_nonblock = 11

-- What `fcntl` with `F_GETFL` returns, as the 32 bits of an `int`.
abbrev pub flags_of : Option ℕ → ℕ
flags_of none = 2 ^ 32 - 1
flags_of (some opts) = opts

-- `tcp::setBlocking`: the flags that `F_SETFL` is called with
unfoldable pub set_blocking : (ℕ → Option ℕ) → ℕ → ℕ
set_blocking get_flags sock =
    let opts = flags_of (get_flags sock) in opts - (opts / 2 ^ o_nonblock) % 2 * 2 ^ o_nonblock

-- The flag is off afterwards, and the bits below it and above it are as they were.
pub set_blocking-off :
    (get_flags : ℕ → Option ℕ) (sock opts : ℕ)
    → get_flags sock ≡ some opts
    → ((set_blocking get_flags sock / 2 ^ 11) % 2 ≡ 0)
      × (set_blocking get_flags sock % 2 ^ 11 ≡ opts % 2 ^ 11)
      × (set_blocking get_flags sock / 2 ^ 12 ≡ opts / 2 ^ 12)
unfolding set_blocking
set_blocking-off get_flags sock opts e = rw e (ground arith)
