-- ===== src/Tests/Streams.antt =====
-- Sockets: the theorems at concrete inputs.
use cachecoherence.Base.{
  ℕ, ◌≡◌, refl, true, false, Option, none, some, List, [], ◌∷◌, ◌==◌, arith, replicate, length, ◌+◌,
  Returns, ok, stop, blocked, ◌||◌,
}
use cachecoherence.Sockets.Descriptor.{World, put, Action, creates, moves, destroys, perform, run}
use cachecoherence.Sockets.Linked.{Link, replace, Replaced, replace-Replaced}
use cachecoherence.Sockets.Ownership.{IsOwned, CanRun, CanRun-step, run-IsOwned}
use cachecoherence.Sockets.Stream
use cachecoherence.Sockets.Stream.{send_fails, gives, write, read}
use cachecoherence.Sockets.Delivery.{read-write_stream, read-eof}
use cachecoherence.Sockets.Domain
use cachecoherence.Sockets.Domain.{
  Message, Control, scm_rights, receive_fd, send_fd, path_size, fill, bind, connect, check,
  family_size, af_unix,
}
use cachecoherence.Sockets.Tcp

abbrev pub nothing_open : World
nothing_open = record { objects = []; is_open = λ fd. false }

-- A socket is made and moved into another object, and both objects are destroyed.
abbrev pub session : List Action
session = creates (some 3) true ∷ moves 0 ∷ destroys 0 ∷ destroys 1 ∷ []

abbrev pub kernel : Domain.System
kernel = record {
  connect = λ sock a. true;
  bind = λ sock a. true;
  listen = λ sock. true;
  accept = λ sock. some 5;
  unlink = λ path. true;
  sendmsg = λ sock m. true;
}

abbrev pub parse : List ℕ → Option ℕ
parse [] = none
parse (b ∷ text) = some 0

abbrev pub network : Tcp.System
network = record {
  connect = λ sock a. a.addr == 0;
  bind = λ sock a. true;
  listen = λ sock. true;
  accept = λ sock. none;
  inet_pton = parse;
  htons = λ x. x;
}

abbrev pub made : World
made = record { objects = some 3 ∷ []; is_open = put (λ fd. false) 3 true }

abbrev pub moved : World
moved = record made { objects = none ∷ some 3 ∷ [] }

abbrev pub done : World
done = record { objects = none ∷ none ∷ []; is_open = put moved.is_open 3 false }

session-CanRun : CanRun session nothing_open
unfolding perform
session-CanRun =
    let last = destroys 1 ∷ [] in
    CanRun-step (creates (some 3) true) (moves 0 ∷ destroys 0 ∷ last) nothing_open made (refl, refl)
      refl
      (CanRun-step (moves 0) (destroys 0 ∷ last) made moved (omega arith) refl (
        CanRun-step (destroys 0) last moved moved (omega arith) refl
          (CanRun-step (destroys 1) [] moved done (omega arith) refl tt)))

run-IsOwned_example : Returns (run session nothing_open) IsOwned
run-IsOwned_example = run-IsOwned session nothing_open (λ fd. refl) session-CanRun

read-write_stream_example :
    Returns (write (7 ∷ 8 ∷ 9 ∷ []) 0 3 (Stream.takes 1 ∷ Stream.takes 2 ∷ [])) λ r.
      (r.1 ≡ []) × (read (length r.0) (gives (7 ∷ 8 ∷ []) ∷ gives (9 ∷ []) ∷ []) ≡ ok (r.0, []))
read-write_stream_example =
    read-write_stream (7 ∷ 8 ∷ 9 ∷ []) (1 ∷ 2 ∷ []) ((7 ∷ 8 ∷ []) ∷ (9 ∷ []) ∷ []) [] []
      (omega arith) (omega arith, (omega arith, tt)) refl (omega arith, (omega arith, tt)) refl

read-eof_example : read 3 (gives (7 ∷ []) ∷ replicate 100 (gives [])) ≡ stop blocked
read-eof_example = read-eof 3 100 ((7 ∷ []) ∷ []) (omega arith) (omega arith, tt) (omega arith)

-- The kernel gives the descriptor the next number at the other end.
abbrev pub next_number : Message → Message
next_number m = record m {
  control = elim m.control [ none ↦ none | some c ↦ some (record c { fd = c.fd + 1 }) ];
}

next_number_control :
    (m : Message) (c : Control)
    → m.control ≡ some c
    → c.kind ≡ scm_rights
    → (next_number m).control ≡ some (record c { fd = c.fd + 1 })
next_number_control m c e rights = ground (arith, e)

-- A connection whose descriptor 5 is closed takes over descriptor 6 and queue pair 4.
abbrev two_sockets : World
two_sockets = record { objects = some 5 ∷ some 6 ∷ []; is_open = λ fd. (fd == 5) || (fd == 6) }

two_sockets-IsOwned : IsOwned two_sockets
two_sockets-IsOwned fd = ground arith

abbrev link : ℕ → ℕ → Link
link qp socket = record { rcqp = some qp; socket = socket }

replace-Replaced_example :
    Returns (replace (link 3 0) (link 4 1) two_sockets) (Replaced (link 3 0) (link 4 1) 6)
replace-Replaced_example =
    replace-Replaced (link 3 0) (link 4 1) 6 two_sockets two_sockets-IsOwned (omega arith)
      (omega arith) (omega arith) refl
