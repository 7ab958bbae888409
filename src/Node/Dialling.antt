-- ===== src/Node/Dialling.antt =====
-- Connecting to a peer, with its attempts, and the round of invalidations.
use cachecoherence.Base.{
  ℕ, zero, suc, ◌+◌, ◌≤◌, ◌<◌, ◌≡◌, refl, ap, ◌∙◌, some, true, false, List, [], ◌∷◌, ◌++◌, arith,
  ok, stop, threw, replicate, length,
}
use cachecoherence.Defs.Address.{GlobalAddress, sendable}
use cachecoherence.Defs.Message.{ImmData, imm_code, unlocked}
use cachecoherence.Node.State.{
  address, lock, flag, word, Input, connects, arrives, Output, dialled, exchanged, linked, posted,
  reset, closed, Connection, Node,
}
use cachecoherence.Node.Network.{dial, connect_client_socket, broadcast_invalidations}

replicate-snoc {ℓ} :
    {A : Type ℓ} (k : ℕ) (a : A) (l : List A) → replicate k a ++ (a ∷ l) ≡ a ∷ (replicate k a ++ l)
replicate-snoc zero a l = refl
replicate-snoc (suc k) a l = ap (◌∷◌ a) (replicate-snoc k a l)

-- `k` attempts that fail, in front of what follows.
abbrev pub failing : ℕ → List Input → List Input
failing k rest = replicate k (connects false) ++ rest

dial-failing :
    (k attempts to : ℕ) (n : Node) (rest : List Input)
    → k < attempts
    → dial attempts to (record n { script = failing k (connects true ∷ rest) })
      ≡ ok (
        tt,
        record n {
          script = rest;
          log = dialled to true ∷ (replicate k (dialled to false) ++ n.log);
        },
      )
unfolding dial
dial-failing k zero to n rest h = absurd (omega arith)
dial-failing zero (suc attempts) to n rest h = refl
dial-failing (suc k) (suc attempts) to n rest h =
    dial-failing k attempts to (record n { log = dialled to false ∷ n.log }) rest (omega arith)
    ∙ rw (replicate-snoc k (dialled to false) n.log)

dial-threw :
    (k attempts to : ℕ) (n : Node) (rest : List Input)
    → attempts ≤ k
    → dial attempts to (record n { script = failing k rest }) ≡ stop threw
unfolding dial
dial-threw k zero to n rest h = refl
dial-threw zero (suc attempts) to n rest h = absurd (omega arith)
dial-threw (suc k) (suc attempts) to n rest h =
    dial-threw k attempts to (record n { log = dialled to false ∷ n.log }) rest (omega arith)

-- The connection that `connectClientSocket` makes, and the node after `k` failed attempts.
abbrev pub new_connection : Node → Connection
new_connection n = record { qpn = n.handles; socket = some (n.handles + 1) }

abbrev pub connected : ℕ → ℕ → Node → Node
connected k to n = record n {
  handles = n.handles + 1 + 1;
  log =
      linked n.handles
      ∷ exchanged (n.handles + 1)
      ∷ dialled to true
      ∷ (replicate k (dialled to false) ++ n.log);
}

-- A peer that answers within twelve attempts is connected to; twelve failures end in an exception.
pub connect-attempts :
    (k to : ℕ) (n : Node) (rest : List Input)
    → (k < 12
        → connect_client_socket to (record n { script = failing k (connects true ∷ rest) })
          ≡ ok (new_connection n, connected k to (record n { script = rest })))
      × (12 ≤ k → connect_client_socket to (record n { script = failing k rest }) ≡ stop threw)
unfolding connect_client_socket
connect-attempts k to n rest = (
  λ h. ground (arith, dial-failing k 12 to (record n { handles = n.handles + 1 + 1 }) rest h),
  λ h. ground (arith, dial-threw k 12 to (record n { handles = n.handles + 1 + 1 }) rest h),
)

-- What a node does to have one other node drop its copy, over the handles from `h` on.
abbrev pub told_one : ℕ → ℕ → GlobalAddress → ℕ → List Output → List Output
told_one id h g to log =
    closed (h + 1)
    ∷ reset h
    ∷ posted h (imm_code ImmData.reset) (lock (record { id = id; state = unlocked }))
    ∷ exchanged (h + 1)
    ∷ posted h (imm_code ImmData.invalidate) (address (sendable g id))
    ∷ exchanged (h + 1)
    ∷ linked h
    ∷ exchanged (h + 1)
    ∷ dialled to true
    ∷ log

-- The log after a whole round, in the order of the list.
abbrev pub told : ℕ → ℕ → GlobalAddress → List ℕ → List Output → List Output
told id h g [] log = log
told id h g (to ∷ nodes) log = told id (h + 1 + 1) g nodes (told_one id h g to log)

abbrev pub handles_after : ℕ → List ℕ → ℕ
handles_after h [] = h
handles_after h (to ∷ nodes) = handles_after (h + 1 + 1) nodes

-- The answers that the round waits for: each peer accepts, answers the invalidation with the number
-- of items that it removed, and the farewell with `false`.
abbrev pub answering : List ℕ → List Input → List Input
answering [] rest = rest
answering (removed ∷ more) rest =
    connects true
    ∷ arrives (imm_code ImmData.default) (word removed)
    ∷ arrives (imm_code ImmData.reset) (flag false)
    ∷ answering more rest

-- A round that ends, on answers of this kind that it uses up, has told as many nodes as have answered.
pub broadcast_invalidations-each :
    (nodes removed : List ℕ) (g : GlobalAddress) (n n' : Node)
    → broadcast_invalidations nodes g (record n { script = answering removed [] }) ≡ ok (tt, n')
    → n'.script ≡ []
    → length removed ≡ length nodes
unfolding broadcast_invalidations
broadcast_invalidations-each [] [] g n n' runs done = refl
broadcast_invalidations-each [] (r ∷ removed) g n n' runs done = absurd (ground (arith, runs, done))
broadcast_invalidations-each (to ∷ nodes) [] g n n' runs done = absurd (ground arith)
broadcast_invalidations-each (to ∷ nodes) (r ∷ removed) g n n' runs done =
    let rest =
      broadcast_invalidations-each nodes removed g
        (record n { handles = n.handles + 1 + 1; log = told_one n.id n.handles g to n.log }) n' runs
        done in
    omega (arith, rest)

-- A round of invalidations opens one connection to each node of the list, in its order, tells it to
-- drop its copy of the address, and closes the connection; it changes nothing else of the node.
pub broadcast_invalidations-told :
    (nodes removed : List ℕ) (g : GlobalAddress) (n : Node) (rest : List Input)
    → length removed ≡ length nodes
    → broadcast_invalidations nodes g (record n { script = answering removed rest })
      ≡ ok (
        tt,
        record n {
          handles = handles_after n.handles nodes;
          script = rest;
          log = told n.id n.handles g nodes n.log;
        },
      )
unfolding broadcast_invalidations
broadcast_invalidations-told [] [] g n rest e = refl
broadcast_invalidations-told [] (r ∷ removed) g n rest e = absurd (omega arith)
broadcast_invalidations-told (to ∷ nodes) [] g n rest e = absurd (omega arith)
broadcast_invalidations-told (to ∷ nodes) (r ∷ removed) g n rest e =
    broadcast_invalidations-told nodes removed g
      (record n { handles = n.handles + 1 + 1; log = told_one n.id n.handles g to n.log }) rest
      (omega arith)
