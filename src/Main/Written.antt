-- ===== src/Main/Written.antt =====
-- What the client of the example program reads of the object that the server gives it.
use cachecoherence.Base.{
  ℕ, ◌+◌, ◌≤◌, ◌≡◌, ◌≢◌, refl, List, [], ◌∷◌, arith, ok, Returns, inl, inr, ◌∙◌, sym,
}
use cachecoherence.Defs.Address.{SendGlobalAddr, GlobalAddress, Platform, sendable, of_sendable}
use cachecoherence.Defs.Message.{ImmData, imm_code, unlocked}
use cachecoherence.Defs.Message
use cachecoherence.Cluster.World.{calls_made}
use cachecoherence.Node.State.{Payload, address, address_head, content, lock, arrives, Input, Node}
use cachecoherence.Node.Network.{port}
use cachecoherence.Node.Memory.{read, free}
use cachecoherence.Node.Writing.{write}
use cachecoherence.Node.Serving.{connect_and_receive}
use cachecoherence.Node.Reading.{session, session_log}
use cachecoherence.Node.Keeping.{Rests, read-Holds, write-Holds}
use cachecoherence.Main.Remotely.{remote_session}

-- The node after a session with the server.
abbrev after_session : Node → ImmData → Payload → List Input → Node
after_session n imm x rest = record n {
  handles = n.handles + 1 + 1;
  script = rest;
  log = session_log n port imm x;
}

after_session-Rests :
    (n : Node) (g : GlobalAddress) (imm : ImmData) (x : Payload) (rest : List Input)
    → Rests g n
    → Rests g (after_session n imm x rest)
after_session-Rests n g imm x rest h = record {
  is_keeper = h.is_keeper;
  away = h.away;
  locks = h.locks;
  idle = h.idle;
  sorted = h.sorted;
  fits = h.fits;
}

-- `Node::Free` of another node's object, which the server answers in one session.
free-session :
    (n : Node) (g : GlobalAddress) (a : SendGlobalAddr) (rest : List Input)
    → g.id ≢ n.id
    → n.script ≡ session (address a) rest
    → free g n ≡ ok (of_sendable a, after_session n ImmData.free (address (sendable g n.id)) rest)
unfolding free sendable imm_code
free-session n g a rest away answered = ground (arith, answered)

-- The session by its steps.
remote_session-steps :
    (p : Platform) (fuel d : ℕ) (n n₁ n₂ n₃ n₄ n₅ n₆ n₇ : Node) (g y₁ y₄ y₇ : GlobalAddress)
    (x₂ x₃ x₅ x₆ : ℕ) (rest : List Input)
    → write
        (connect_and_receive p fuel)
        p
        (record { size = 8; value = d; ga = g })
        (after_session n ImmData.malloc
          (address (sendable (record { size = 8; ptr = 0; id = 0 }) n.id))
          rest)
      ≡ ok (y₁, n₁)
    → read p g n₁ ≡ ok (x₂, n₂)
    → read p g n₂ ≡ ok (x₃, n₃)
    → write (connect_and_receive p fuel) p (record { size = 8; value = 1337; ga = g }) n₃
      ≡ ok (y₄, n₄)
    → read p g n₄ ≡ ok (x₅, n₅)
    → read p g n₅ ≡ ok (x₆, n₆)
    → free g n₆ ≡ ok (y₇, n₇)
    → remote_session p fuel d (record n { script = session (address_head g) rest })
      ≡ ok (x₂ ∷ x₃ ∷ x₅ ∷ x₆ ∷ [], n₇)
unfolding remote_session sendable imm_code
remote_session-steps p fuel d n n₁ n₂ n₃ n₄ n₅ n₆ n₇ g y₁ y₄ y₇ x₂ x₃ x₅ x₆ rest e₁ e₂ e₃ e₄ e₅ e₆
      e₇ =
    ground (arith, e₁, e₂, e₃, e₄, e₅, e₆, e₇)

-- A session with the server, as it gets it: a request, and the farewell.
abbrev pub request : ℕ → ImmData → Payload → ℕ × List Input
request id imm x = (
  port,
  arrives (imm_code imm) x
      ∷ arrives (imm_code ImmData.reset) (lock (record { id = id; state = unlocked }))
      ∷ [],
)

-- What the client asks the server: for an object, two writes, and the release.
abbrev pub requests : ℕ → ℕ → GlobalAddress → List (ℕ × List Input)
requests id d g =
    request id ImmData.malloc (address (sendable (record { size = 8; ptr = 0; id = 0 }) id))
    ∷ request id ImmData.write
        (content (Message.sendable (record { size = 8; value = d; ga = g }) id))
    ∷ request id ImmData.write
        (content (Message.sendable (record { size = 8; value = 1337; ga = g }) id))
    ∷ request id ImmData.free (address (sendable g id))
    ∷ []

-- The logs of the session, one after the other.
made_requests :
    (n n₀ n₁ n₂ n₃ n₄ n₅ n₆ n₇ : Node) (d : ℕ) (g : GlobalAddress)
    → n.log ≡ []
    → n₀.id ≡ n.id
    → n₃.id ≡ n.id
    → n₆.id ≡ n.id
    → n₀.log
      ≡ session_log n port ImmData.malloc
          (address (sendable (record { size = 8; ptr = 0; id = 0 }) n.id))
    → n₁.log
      ≡ session_log n₀ port ImmData.write
          (content (Message.sendable (record { size = 8; value = d; ga = g }) n₀.id))
    → n₂.log ≡ n₁.log
    → n₃.log ≡ n₂.log
    → n₄.log
      ≡ session_log n₃ port ImmData.write
          (content (Message.sendable (record { size = 8; value = 1337; ga = g }) n₃.id))
    → n₅.log ≡ n₄.log
    → n₆.log ≡ n₅.log
    → n₇.log ≡ session_log n₆ port ImmData.free (address (sendable g n₆.id))
    → calls_made [] n₇.log ≡ requests n.id d g
made_requests n n₀ n₁ n₂ n₃ n₄ n₅ n₆ n₇ d g quiet i₀ i₃ i₆ l₀ l₁ l₂ l₃ l₄ l₅ l₆ l₇ =
    rw (l₇, l₆, l₅, l₄, l₃, l₂, l₁, l₀, quiet, i₆, i₃, i₀) refl

-- A client with the id of the lock node, at rest and with no calls made yet, that the server gives an
-- object `g` which fits into its cache and for which there is room: whatever addresses the server
-- answers with, the session runs to its end and makes four calls of the server, for an object, to write
-- the word, to write 1337, and to release the object; the reads return the word, twice, and then 1337,
-- twice, without a call. The client's own memory is as before, and it is at rest again.
pub remote_session-reads :
    (p : Platform) (fuel d : ℕ) (n : Node) (g : GlobalAddress) (a₁ a₂ a₃ : SendGlobalAddr)
    (rest : List Input)
    → Rests g n
    → g.size ≤ n.cache.available_size
    → n.log ≡ []
    → Returns
        (remote_session p fuel d (record n {
          script =
              session
                (address_head g)
                (session (address a₁) (session (address a₂) (session (address a₃) rest)));
        }))
        λ r.
          (r.0 ≡ d ∷ d ∷ 1337 ∷ 1337 ∷ [])
          × (r.1.script ≡ rest)
          × Rests g r.1
          × (r.1.memory ≡ n.memory)
          × (calls_made [] r.1.log ≡ requests n.id d g)
remote_session-reads p fuel d n g a₁ a₂ a₃ rest h room quiet =
    let serve = connect_and_receive p fuel in
    let answers₃ = session (address a₃) rest in
    let answers₂ = session (address a₂) answers₃ in
    let answers₁ = session (address a₁) answers₂ in
    let n₀ =
      after_session n ImmData.malloc
        (address (sendable (record { size = 8; ptr = 0; id = 0 }) n.id)) answers₁ in
    let h₀ : Rests g n₀ = after_session-Rests n g _ _ answers₁ h in
    let ((x₁, n₁), run₁, (_, h₁, c₁, e₁, m₁, l₁)) =
      write-Holds serve p (record { size = 8; value = d; ga = g }) n₀ a₁ 0 answers₂ h₀ (inr room)
        refl in
    let ((x₂, n₂), run₂, (v₂, h₂, c₂, e₂, m₂, l₂)) = read-Holds p g d n₁ h₁ c₁ in
    let ((x₃, n₃), run₃, (v₃, h₃, c₃, e₃, m₃, l₃)) = read-Holds p g d n₂ h₂ c₂ in
    let ((x₄, n₄), run₄, (_, h₄, c₄, e₄, m₄, l₄)) =
      write-Holds serve p (record { size = 8; value = 1337; ga = g }) n₃ a₂ d answers₃ h₃ (inl c₃)
        (e₃ ∙ e₂ ∙ e₁) in
    let ((x₅, n₅), run₅, (v₅, h₅, c₅, e₅, m₅, l₅)) = read-Holds p g 1337 n₄ h₄ c₄ in
    let ((x₆, n₆), run₆, (v₆, h₆, c₆, e₆, m₆, l₆)) = read-Holds p g 1337 n₅ h₅ c₅ in
    let h₇ : Rests g (after_session n₆ ImmData.free (address (sendable g n₆.id)) rest) =
      after_session-Rests n₆ g _ _ rest h₆ in
    let run₇ = free-session n₆ g a₃ rest h₆.away (e₆ ∙ e₅ ∙ e₄) in
    let n₇ = after_session n₆ ImmData.free (address (sendable g n₆.id)) rest in
    let said =
      made_requests n n₀ n₁ n₂ n₃ n₄ n₅ n₆ n₇ d g quiet refl (h₃.is_keeper ∙ sym h.is_keeper)
        (h₆.is_keeper ∙ sym h.is_keeper) refl l₁ l₂ l₃ l₄ l₅ l₆ refl in
    (
      (x₂ ∷ x₃ ∷ x₅ ∷ x₆ ∷ [], after_session n₆ ImmData.free (address (sendable g n₆.id)) rest),
      remote_session-steps p fuel d n n₁ n₂ n₃ n₄ n₅ n₆ _ g x₁ x₄ _ x₂ x₃ x₅ x₆ answers₁ run₁ run₂
          run₃ run₄ run₅ run₆ run₇,
      (ground (arith, v₂, v₃, v₅, v₆), refl, h₇, m₆ ∙ m₅ ∙ m₄ ∙ m₃ ∙ m₂ ∙ m₁, said),
    )
