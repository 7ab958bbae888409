-- ===== src/Sockets/Descriptor.antt =====
-- util/socket/Socket.h and util/socket/Socket.cpp: objects that own a file descriptor. The objects
-- of a program go by number; `s`, which is -1 where there is no descriptor, is an option. An object
-- that has been destroyed keeps its number, without a descriptor.
use cachecoherence.Base.{
  ℕ, Bool, true, false, Option, none, some, List, [], ◌∷◌, ◌++◌, ◌==◌, if◌then◌else◌, get_or, set,
  Run, ok, stop, undefined, ◌>>=◌,
}

-- The `Socket` objects, and which descriptors of the process are open.
pub record World : Type 0 where
  pub objects : List (Option ℕ)
  pub is_open : ℕ → Bool

abbrev pub put : (ℕ → Bool) → ℕ → Bool → ℕ → Bool
put opened fd b j = if j == fd then b else opened j

-- `::close(fd)`; to close a descriptor that is not open is an error, which may hit another owner.
unfoldable pub os_close : ℕ → World → Run World
os_close fd w =
    if w.is_open fd then ok (record w { is_open = put w.is_open fd false }) else stop undefined

abbrev pub held_by : World → ℕ → Option ℕ
held_by w i = get_or w.objects i none

-- `Socket::create`, with the results of `::socket` and `::setsockopt`: `false` where it throws
unfoldable pub create : Option ℕ → Bool → World → Bool × World
create none configured w = (false, w)
create (some raw) configured w =
    let opened = put w.is_open raw true in
    if configured
    then (true, record { objects = w.objects ++ some raw ∷ []; is_open = opened })
    else (false, record w { is_open = opened })

-- `Socket::fromRaw`, of a descriptor that `::accept` has opened
unfoldable pub from_raw : ℕ → World → World
from_raw raw w = record { objects = w.objects ++ some raw ∷ []; is_open = put w.is_open raw true }

-- `Socket::Socket(Socket &&other)`: the new object has -1, and swaps.
unfoldable pub move_construct : ℕ → World → World
move_construct other w = record w { objects = set w.objects other none ++ held_by w other ∷ [] }

-- `Socket::operator=(Socket &&other)`, `std::swap` alone
unfoldable pub move_assign : ℕ → ℕ → World → World
move_assign this other w =
    let s = held_by w this in
    record w { objects = set (set w.objects this (held_by w other)) other s }

-- `Socket::close`
unfoldable pub close : ℕ → World → Run World
unfolding os_close
close this w = elim (held_by w this) [
  | none ↦ ok w
  | some fd ↦ os_close fd w >>= λ w'. ok (record w' { objects = set w'.objects this none })
]

-- `Socket::~Socket`
unfoldable pub destroy : ℕ → World → Run World
unfolding os_close
destroy this w = elim (held_by w this) [
  | none ↦ ok w
  | some fd ↦ os_close fd w >>= λ w'. ok (record w' { objects = set w'.objects this none })
]

-- The life of objects: what a program does with them, in some order.
pub data Action : Type 0 where
  creates : Option ℕ → Bool → Action
  takes : ℕ → Action
  moves : ℕ → Action
  assigns : ℕ → ℕ → Action
  closes : ℕ → Action
  destroys : ℕ → Action

unfoldable pub perform : Action → World → Run World
unfolding create from_raw move_construct move_assign close destroy
perform (creates raw configured) w = ok (create raw configured w).1
perform (takes raw) w = ok (from_raw raw w)
perform (moves other) w = ok (move_construct other w)
perform (assigns this other) w = ok (move_assign this other w)
perform (closes this) w = close this w
perform (destroys this) w = destroy this w

unfoldable pub run : List Action → World → Run World
unfolding perform
run [] w = ok w
run (a ∷ actions) w = perform a w >>= λ w'. run actions w'
