-- ===== src/Sockets/Linked.antt =====
-- src/Connection.cpp and src/Connection.h: a connection holds a queue pair, by its number, and a
-- `Socket` object (Sockets/Descriptor); and what `prepareForInvalidate` of src/Send.cpp does to one.
use cachecoherence.Base.{
  ℕ, ◌<◌, ◌≡◌, ◌≢◌, ◌==◌, if◌then◌else◌, refl, Option, none, some, true, [], ◌∷◌, ◌++◌, Run, ok,
  ◌>>=◌, length, length-set, set, get_or-set, Returns, arith, Option-cases, inl, inr,
}
use cachecoherence.Sockets.Descriptor.{
  World, held_by, close, destroy, move_assign, assigns, closes, perform,
}
use cachecoherence.Sockets.Ownership.{IsOwned, perform-IsOwned, held-open}

pub record Link : Type 0 where
  pub rcqp : Option ℕ
  pub socket : ℕ

-- `Socket()`, whose number is that of the next object
abbrev pub with_socket : World → World
with_socket w = record w { objects = w.objects ++ none ∷ [] }

-- `Connection(std::unique_ptr<rdma::RcQueuePair>, Socket)`
unfoldable pub connection : Option ℕ → ℕ → World → Link × World
unfolding move_assign
connection unique_ptr s w =
    let this = length w.objects in
    (record { rcqp = unique_ptr; socket = this }, move_assign this s (with_socket w))

-- `Connection(Connection &&)`: the new connection, and what is left of the other one
unfoldable pub move_connection : Link → World → Link × Link × World
unfolding move_assign
move_connection c w =
    let this = length w.objects in
    (
      record { rcqp = c.rcqp; socket = this },
      record c { rcqp = none },
      move_assign this c.socket (with_socket w),
    )

-- `Connection::operator=(Connection &&)`
unfoldable pub assign : Link → Link → World → Link × Link × World
unfolding move_assign
assign this other w = (
  record this { rcqp = other.rcqp },
  record other { rcqp = none },
  move_assign this.socket other.socket w,
)

-- What `prepareForInvalidate` does to its connection: `c.socket.close()` and, after the calls that make
-- `newcon` (Node/Writing), `c = std::move(newcon)` and the end of `newcon`
unfoldable pub replace : Link → Link → World → Run (Link × World)
unfolding close assign destroy
replace c newcon w = do
  w₁ ← close c.socket w
  let (c', newcon', w₂) = assign c newcon w₁
  w₃ ← destroy newcon'.socket w₂
  ok (c', w₃)

-- An object that is closed holds nothing, and the others hold what they held.
close-held_by :
    (i j : ℕ) (w w' : World)
    → i < length w.objects
    → close i w ≡ ok w'
    → (held_by w' j ≡ (if i == j then none else held_by w j))
      × (length w'.objects ≡ length w.objects)
unfolding close
close-held_by i j w w' inside runs = elim (Option-cases (held_by w i)) [
  | inl vacant ↦ ground (arith, vacant, runs)
  | inr (fd, held) ↦
      ground
        (arith, held, runs, get_or-set w.objects i j none none inside, length-set w.objects i none)
]

assign-held_by :
    (i j : ℕ) (w : World)
    → i < length w.objects
    → j < length w.objects
    → i ≢ j
    → (held_by (move_assign i j w) i ≡ held_by w j)
      × (held_by (move_assign i j w) j ≡ held_by w i)
      × (length (move_assign i j w).objects ≡ length w.objects)
unfolding move_assign
assign-held_by i j w inside inside' apart =
    let b = held_by w j in
    let n = length-set w.objects i b in
    let first = get_or-set w.objects i i b none inside in
    let second =
      λ (k : ℕ). get_or-set (set w.objects i b) j k (held_by w i) none (omega (arith, n)) in
    (
      ground (arith, first, second i),
      ground (arith, second j),
      omega (arith, n, length-set (set w.objects i b) j (held_by w i)),
    )

-- What a connection has got: the queue pair and the descriptor of the other one, which is open.
abbrev pub Replaced : Link → Link → ℕ → Link × World → Type 0
Replaced c newcon fd r =
    (r.0 ≡ record c { rcqp = newcon.rcqp })
    × (held_by r.1 c.socket ≡ some fd)
    × (held_by r.1 newcon.socket ≡ none)
    × (r.1.is_open fd ≡ true)
    × IsOwned r.1

-- A connection whose socket is closed and that is then replaced by a new one, held by another object,
-- has the new queue pair and the new descriptor, which is open; the object that it came from holds
-- nothing; and if each open descriptor had one owner, it still does.
pub replace-Replaced :
    (c newcon : Link) (fd : ℕ) (w : World)
    → IsOwned w
    → c.socket < length w.objects
    → newcon.socket < length w.objects
    → c.socket ≢ newcon.socket
    → held_by w newcon.socket ≡ some fd
    → Returns (replace c newcon w) (Replaced c newcon fd)
unfolding replace perform
replace-Replaced c newcon fd w owned inside inside' apart held =
    let (w₁, closed, owned₁) = perform-IsOwned (closes c.socket) w owned inside in
    let vacant = close-held_by c.socket c.socket w w₁ inside closed in
    let kept = close-held_by c.socket newcon.socket w w₁ inside closed in
    let in₁ : c.socket < length w₁.objects = omega (arith, inside, vacant) in
    let in₁' : newcon.socket < length w₁.objects = omega (arith, inside', vacant) in
    let (w₂, swapped, owned₂) =
      perform-IsOwned (assigns c.socket newcon.socket) w₁ owned₁ (in₁, in₁') in
    let same : w₂ ≡ move_assign c.socket newcon.socket w₁ = ground (arith, swapped) in
    let (got, left, n) = assign-held_by c.socket newcon.socket w₁ in₁ in₁' apart in
    let holds : held_by w₂ c.socket ≡ some fd = rw same (ground (arith, got, kept, held, apart)) in
    let empty : held_by w₂ newcon.socket ≡ none = rw same (ground (arith, left, vacant)) in
    (
      (record c { rcqp = newcon.rcqp }, w₂),
      ground (arith, closed, same, empty),
      (
        refl,
        holds,
        empty,
        held-open w₂ c.socket fd owned₂ (rw same (omega (arith, n, in₁))) holds,
        owned₂,
      ),
    )
