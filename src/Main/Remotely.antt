-- ===== src/Main/Remotely.antt =====
-- main.cpp: the client's use of an object of the server's, and the server.
use cachecoherence.Base.{ℕ, zero, suc, List, [], ◌∷◌, out_of_fuel}
use cachecoherence.Defs.Address.{Platform, sendable}
use cachecoherence.Defs.Message.{ImmData}
use cachecoherence.Node.State.{M, pure, ◌>>=◌, ◌>>◌, halt, get, as_global}
use cachecoherence.Node.Network.{connect_client_socket, send_address, close_client_socket}
use cachecoherence.Node.Memory.{read, free}
use cachecoherence.Node.Writing.{write}
use cachecoherence.Node.Serving.{connect_and_receive}

module _ (p : Platform) (fuel : ℕ) where
  -- The client from line 45 on: an object of the server's, for the word `d`.
  unfoldable pub remote_session : ℕ → M (List ℕ)
  unfolding connect_client_socket send_address close_client_socket sendable
  remote_session d = do
    conn ← connect_client_socket 3000
    self ← get
    recv ←
        send_address (sendable (record { size = 8; ptr = 0; id = 0 }) self.id) ImmData.malloc conn
    _ ← close_client_socket conn
    test ← as_global recv
    _ ← write (connect_and_receive p fuel) p (record { size = 8; value = d; ga = test })
    result ← read p test
    result1 ← read p test
    _ ← write (connect_and_receive p fuel) p (record { size = 8; value = 1337; ga = test })
    result2 ← read p test
    result3 ← read p test
    _ ← free test
    pure (result ∷ result1 ∷ result2 ∷ result3 ∷ [])

  -- the loop of the server, for so many connections
  unfoldable pub server_loop : ℕ → M (Unit {0})
  unfolding connect_and_receive
  server_loop zero = halt out_of_fuel
  server_loop (suc connections) = do
    self ← get
    connect_and_receive p fuel self.id
    server_loop connections
