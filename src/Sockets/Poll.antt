-- ===== src/Sockets/Poll.antt =====
-- util/socket/Socket.h: `Socket::poll_first`, which waits for one of several sockets.
use cachecoherence.Base.{
  ℕ, zero, suc, ◌<◌, ◌≤◌, ◌≡◌, refl, Bool, true, false, Option, none, some, List, [], ◌∷◌, get_or,
  length, Run, ok, stop, threw, terminated, Returns, arith,
}

-- `std::find_if` over the answers, whether `POLLIN` is set
unfoldable pub first_readable : List Bool → ℕ
first_readable [] = 0
first_readable (true ∷ readable) = 0
first_readable (false ∷ readable) = suc (first_readable readable)

-- `Socket::poll_first` of so many sockets, with the result of `poll`, an error or an answer for each
-- socket: the position of the iterator that is returned
unfoldable pub poll_first : ℕ → Option (List Bool) → Run ℕ
unfolding first_readable
poll_first zero answer = stop terminated
poll_first (suc n) none = stop threw
poll_first (suc n) (some readable) = ok (first_readable readable)

first_readable-le : (readable : List Bool) → first_readable readable ≤ length readable
unfolding first_readable
first_readable-le [] = omega arith
first_readable-le (true ∷ readable) = omega arith
first_readable-le (false ∷ readable) = omega (arith, first_readable-le readable)

first_readable-true :
    (readable : List Bool)
    → first_readable readable < length readable
    → get_or readable (first_readable readable) false ≡ true
unfolding first_readable
first_readable-true [] inside = absurd (omega arith)
first_readable-true (true ∷ readable) inside = refl
first_readable-true (false ∷ readable) inside = first_readable-true readable (omega arith)

-- The answer is the end of the sockets, or a readable one.
pub poll_first-readable :
    (readable : List Bool) (n : ℕ)
    → length readable ≡ suc n
    → first_readable readable < suc n
    → Returns
        (poll_first (suc n) (some readable))
        λ i. (i < length readable) × (get_or readable i false ≡ true)
unfolding poll_first
poll_first-readable readable n size found =
    let inside : first_readable readable < length readable = omega (arith, size, found) in
    (first_readable readable, refl, (inside, first_readable-true readable inside))

-- No socket before the answer is readable.
pub poll_first-first :
    (readable : List Bool) (i : ℕ) → i < first_readable readable → get_or readable i true ≡ false
unfolding first_readable
poll_first-first [] i before = absurd (omega arith)
poll_first-first (true ∷ readable) i before = absurd (omega arith)
poll_first-first (false ∷ readable) zero before = refl
poll_first-first (false ∷ readable) (suc i) before = poll_first-first readable i (omega arith)
