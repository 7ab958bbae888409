-- ===== src/Sockets/Stream.antt =====
-- util/socket/tcp.cpp and util/socket/domain.cpp: the loops `write` and `read`, which are the same
-- in both files. The answers of `::send` and `::recv` are given as lists; the code is blocked at the
-- end of such a list. `current` and `size` are of the type `size_t`.
use cachecoherence.Base.{
  ℕ, ◌+◌, ◌-◌, ◌%◌, ◌^◌, List, [], ◌∷◌, ◌++◌, ◌==◌, length, take, drop, Run, ok, stop, blocked,
  threw,
}
use cachecoherence.Base.{if◌then◌else◌}

-- What `::send` returns: an error, or how many bytes it has taken.
pub data Sent : Type 0 where
  send_fails : Sent
  takes : ℕ → Sent

-- What `::recv` returns: an error, or the bytes that it has put into the buffer; none at the end of
-- the stream.
pub data Received : Type 0 where
  recv_fails : Received
  gives : List ℕ → Received

-- The bytes that one round has dealt with, and then those of the rounds after it.
abbrev pub prepend :
    {Answer : Type 0} → List ℕ → Run (List ℕ × List Answer) → Run (List ℕ × List Answer)
prepend bytes (ok (more, left)) = ok (bytes ++ more, left)
prepend bytes (stop s) = stop s

-- `write`, from a state of its loop on: the bytes that have gone out, and the answers not used
unfoldable pub write : List ℕ → ℕ → ℕ → List Sent → Run (List ℕ × List Sent)
write buffer current size [] = if size == 0 then ok ([], []) else stop blocked
write buffer current size (send_fails ∷ answers) =
    if size == 0 then ok ([], send_fails ∷ answers) else stop threw
write buffer current size (takes res ∷ answers) =
    let rest = write buffer ((current + res) % 2 ^ 64) ((size + 2 ^ 64 - res) % 2 ^ 64) answers in
    if size == 0 then ok ([], takes res ∷ answers) else elim rest [
      | ok (out, left) ↦ ok (take res (drop current buffer) ++ out, left)
      | stop s ↦ stop s
    ]

-- `read`, from a state of its loop on: what the buffer gets from `current` on, and the answers not
-- used
unfoldable pub read : ℕ → List Received → Run (List ℕ × List Received)
read size [] = if size == 0 then ok ([], []) else stop blocked
read size (recv_fails ∷ answers) = if size == 0 then ok ([], recv_fails ∷ answers) else stop threw
read size (gives chunk ∷ answers) =
    let rest = read ((size + 2 ^ 64 - length chunk) % 2 ^ 64) answers in
    if size == 0
    then ok ([], gives chunk ∷ answers)
    else (if length chunk == size then ok (chunk, answers) else prepend chunk rest)

-- `domain::write` and `domain::read`, which are the same text
unfoldable pub domain_write : List ℕ → ℕ → ℕ → List Sent → Run (List ℕ × List Sent)
unfolding write
domain_write buffer current size answers = write buffer current size answers

unfoldable pub domain_read : ℕ → List Received → Run (List ℕ × List Received)
unfolding read
domain_read size answers = read size answers
