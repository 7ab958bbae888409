-- ===== src/Sockets/Ownership.antt =====
-- Who owns a descriptor: each open one belongs to one `Socket`, and no other one is ever closed.
use cachecoherence.Base.{
  ℕ, zero, suc, ◌+◌, ◌<◌, ◌≡◌, true, false, Option, none, some, List, [], ◌∷◌, ◌++◌, ◌==◌,
  if◌then◌else◌, ap, get_or, get_or-set, set, Option-cases, inl, inr, length, length-set, All, ok,
  Returns, arith, refl,
}
use mathlib.Core.Path.{subst}
use cachecoherence.Sockets.Descriptor.{
  World, put, held_by, create, close, Action, creates, takes, moves, assigns, closes, destroys,
  perform, run, move_assign, move_construct, from_raw,
}

abbrev pub owns : ℕ → Option ℕ → ℕ
owns fd none = 0
owns fd (some j) = if j == fd then 1 else 0

-- How many objects hold a descriptor.
abbrev pub holders : ℕ → List (Option ℕ) → ℕ
holders fd [] = 0
holders fd (o ∷ objects) = owns fd o + holders fd objects

holders-append :
    (fd : ℕ) (xs ys : List (Option ℕ)) → holders fd (xs ++ ys) ≡ holders fd xs + holders fd ys
holders-append fd [] ys = omega arith
holders-append fd (x ∷ xs) ys = omega (arith, holders-append fd xs ys)

holders-set :
    (fd : ℕ) (xs : List (Option ℕ)) (i : ℕ) (o : Option ℕ)
    → i < length xs
    → holders fd (set xs i o) + owns fd (get_or xs i none) ≡ holders fd xs + owns fd o
holders-set fd [] i o h = absurd (omega arith)
holders-set fd (x ∷ xs) zero o h = omega arith
holders-set fd (x ∷ xs) (suc i) o h = omega (arith, holders-set fd xs i o (omega arith))

-- Each open descriptor is held by one object, and each held one is open.
abbrev pub IsOwned : World → Type 0
IsOwned w = (fd : ℕ) → holders fd w.objects ≡ (if w.is_open fd then 1 else 0)

-- What an action relies on: its objects exist, the system hands out a descriptor that is not open,
-- and `setsockopt` succeeds on a new socket.
abbrev pub Allowed : Action → World → Type 0
Allowed (creates none configured) w = Unit
Allowed (creates (some raw) configured) w = (w.is_open raw ≡ false) × (configured ≡ true)
Allowed (takes raw) w = w.is_open raw ≡ false
Allowed (moves other) w = other < length w.objects
Allowed (assigns this other) w = (this < length w.objects) × (other < length w.objects)
Allowed (closes this) w = this < length w.objects
Allowed (destroys this) w = this < length w.objects

abbrev pub IsVacant : Option ℕ → Type 0
IsVacant o = o ≡ none

vacant-holders :
    (objects : List (Option ℕ)) (fd : ℕ) → All IsVacant objects → holders fd objects ≡ 0
vacant-holders [] fd a = refl
vacant-holders (o ∷ objects) fd (e, a) = ground (arith, e, vacant-holders objects fd a)

abbrev pub CanRun : List Action → World → Type 0
CanRun [] w = Unit
CanRun (a ∷ actions) w = Allowed a w × ((w' : World) → perform a w ≡ ok w' → CanRun actions w')

pub CanRun-step :
    (a : Action) (actions : List Action) (w v : World)
    → Allowed a w
    → perform a w ≡ ok v
    → CanRun actions v
    → CanRun (a ∷ actions) w
CanRun-step a actions w v allowed does can =
    (allowed, λ w' does'. subst (λ u. CanRun actions u) (ground (arith, does, does')) can)

-- The world after the descriptor of an object has been closed.
abbrev pub released : World → ℕ → ℕ → World
released w this fd = record { objects = set w.objects this none; is_open = put w.is_open fd false }

pub held-open :
    (w : World) (this fd : ℕ)
    → IsOwned w
    → this < length w.objects
    → held_by w this ≡ some fd
    → w.is_open fd ≡ true
held-open w this fd owned inside held =
    ground (arith, owned fd, holders-set fd w.objects this none inside)

released-IsOwned :
    (w : World) (this fd : ℕ)
    → IsOwned w
    → this < length w.objects
    → held_by w this ≡ some fd
    → IsOwned (released w this fd)
released-IsOwned w this fd owned inside held j = ground (
  arith,
  owned j,
  holders-set j w.objects this none inside,
  held-open w this fd owned inside held,
)

assigned-same :
    (w : World) (this other : ℕ)
    → this < length w.objects
    → get_or (set w.objects this (held_by w other)) other none ≡ held_by w other
assigned-same w this other inside =
    ground (arith, get_or-set w.objects this other (held_by w other) none inside)

closed-IsOwned :
    (this : ℕ) (w : World) → IsOwned w → this < length w.objects → Returns (close this w) IsOwned
unfolding close
closed-IsOwned this w owned inside = elim (Option-cases (held_by w this)) [
  | inl vacant ↦ (w, ground arith, owned)
  | inr (fd, held) ↦ (
    released w this fd,
    ground (arith, held-open w this fd owned inside held),
    released-IsOwned w this fd owned inside held,
  )
]

-- Each action of a program ends without closing a descriptor that is not open, and keeps each open
-- descriptor with one owner.
pub perform-IsOwned :
    (a : Action) (w : World) → IsOwned w → Allowed a w → Returns (perform a w) IsOwned
unfolding perform
perform-IsOwned (creates none configured) w owned allowed = (w, refl, owned)
perform-IsOwned (creates (some raw) configured) w owned allowed = (
  from_raw raw w,
  ground arith,
  λ fd. ground (arith, owned fd, holders-append fd w.objects (some raw ∷ [])),
)
perform-IsOwned (takes raw) w owned allowed = (
  from_raw raw w,
  refl,
  λ fd. ground (arith, owned fd, holders-append fd w.objects (some raw ∷ [])),
)
perform-IsOwned (moves other) w owned allowed = (
  move_construct other w,
  refl,
  λ fd. omega (
    arith,
    owned fd,
    holders-append fd (set w.objects other none) (held_by w other ∷ []),
    holders-set fd w.objects other none allowed,
  ),
)
perform-IsOwned (assigns this other) w owned (inside, inside') =
    let b = held_by w other in
    (
      move_assign this other w,
      refl,
      λ fd. omega (
        arith,
        owned fd,
        ap (owns fd) (assigned-same w this other inside),
        holders-set fd w.objects this b inside,
        holders-set fd (set w.objects this b) other (held_by w this)
            (omega (arith, length-set w.objects this b)),
      ),
    )
perform-IsOwned (closes this) w owned inside = closed-IsOwned this w owned inside
perform-IsOwned (destroys this) w owned inside = closed-IsOwned this w owned inside

-- Programs whose calls of `setsockopt` succeed, that start with each open descriptor in one owner, and
-- use objects that exist, never close a descriptor that is not open, and end with each open descriptor
-- in one owner.
pub run-IsOwned :
    (actions : List Action) (w : World)
    → IsOwned w
    → CanRun actions w
    → Returns (run actions w) IsOwned
unfolding run
run-IsOwned [] w owned can = (w, refl, owned)
run-IsOwned (a ∷ actions) w owned (allowed, can) =
    let (w', does, owned') = perform-IsOwned a w owned allowed in
    let (w'', runs, result) = run-IsOwned actions w' owned' (can w' does) in
    (w'', rw (does, runs), result)

-- Where such a program ends with no object that holds a descriptor, none is left open.
pub run-closed :
    (actions : List Action) (w w' : World) (fd : ℕ)
    → IsOwned w
    → CanRun actions w
    → run actions w ≡ ok w'
    → All IsVacant w'.objects
    → w'.is_open fd ≡ false
run-closed actions w w' fd owned can runs vacant =
    let (u, same, owned') = run-IsOwned actions w owned can in
    ground (arith, owned' fd, runs, same, vacant-holders w'.objects fd vacant)

-- A `Socket::create` whose `setsockopt` fails throws, and leaves the new descriptor open with no
-- object that holds it.
pub create-leaks :
    (raw : ℕ) (w : World)
    → IsOwned w
    → w.is_open raw ≡ false
    → ((create (some raw) false w).0 ≡ false)
      × ((create (some raw) false w).1.is_open raw ≡ true)
      × (holders raw (create (some raw) false w).1.objects ≡ 0)
unfolding create
create-leaks raw w owned fresh = ground (arith, owned raw, fresh)
