-- ===== src/Base/OrdMap.antt =====
-- `std::map` and `std::unordered_map` with integer keys: entries in ascending order of their keys.
use Prim.Native.Nat.{ℕ, suc, ◌+◌, ◌≤◌, ◌<◌}
use mathlib.Core.Path.{◌≡◌, refl}
use mathlib.Core.List.{List, [], ◌∷◌}
use mathlib.Core.Option.{Option, none, some}
use native.Mathlib.Omega.{arith}
use cachecoherence.Base.Tests.{ltb, ◌==◌, if◌then◌else◌}
use cachecoherence.Base.Lists.{length}

abbrev pub OrdMap {ℓ} : Type ℓ → Type ℓ
OrdMap V = List (ℕ × V)

-- The keys ascend, from `n` on.
abbrev pub Above {ℓ} : {V : Type ℓ} → ℕ → OrdMap V → Type 0
Above n [] = Unit {0}
Above n ((k, v) ∷ m) = (n ≤ k) × Above (suc k) m

-- What a failed or successful search is replaced by.
abbrev pub or_some {ℓ} : {V : Type ℓ} → Option V → V → Option V
or_some none v = some v
or_some (some w) v = some w

abbrev pub replaced {ℓ} : {V : Type ℓ} → Option V → V → Option V
replaced none v = none
replaced (some w) v = some v

module _ {ℓ} {V : Type ℓ} where
  unfoldable pub find : ℕ → OrdMap V → Option V
  find k [] = none
  find k ((j, v) ∷ m) = if j == k then some v else find k m

  -- `insert` leaves an entry that is there as it is.
  unfoldable pub insert : ℕ → V → OrdMap V → OrdMap V
  insert k v [] = (k, v) ∷ []
  insert k v ((j, w) ∷ m) =
      if j == k
      then (j, w) ∷ m
      else (if ltb k j then (k, v) ∷ (j, w) ∷ m else (j, w) ∷ insert k v m)

  unfoldable pub erase : ℕ → OrdMap V → OrdMap V
  erase k [] = []
  erase k ((j, w) ∷ m) = if j == k then m else (j, w) ∷ erase k m

  -- A write through the iterator that `find` returned.
  unfoldable pub assign : ℕ → V → OrdMap V → OrdMap V
  assign k v [] = []
  assign k v ((j, w) ∷ m) = if j == k then (j, v) ∷ m else (j, w) ∷ assign k v m

  -- The sum of a measure over the entries.
  unfoldable pub total : (V → ℕ) → OrdMap V → ℕ
  total f [] = 0
  total f ((j, w) ∷ m) = f w + total f m

  pub Above-le : {i n : ℕ} (m : OrdMap V) → i ≤ n → Above n m → Above i m
  Above-le [] h a = tt
  Above-le ((k, v) ∷ m) h a = (omega arith, a.1)

  pub find_below : (k n : ℕ) (m : OrdMap V) → k < n → Above n m → find k m ≡ none
  unfolding find
  find_below k n [] h a = refl
  find_below k n ((j, v) ∷ m) h a = ground (arith, find_below k (suc j) m)

  pub insert-Above :
      (k : ℕ) (v : V) (n : ℕ) (m : OrdMap V) → n ≤ k → Above n m → Above n (insert k v m)
  unfolding insert
  insert-Above k v n [] h a = (h, tt)
  insert-Above k v n ((j, w) ∷ m) h a = ground (arith, insert-Above k v (suc j) m)

  pub erase-Above : (k n : ℕ) (m : OrdMap V) → Above n m → Above n (erase k m)
  unfolding erase
  erase-Above k n [] a = tt
  erase-Above k n ((j, w) ∷ m) a =
      ground (arith, erase-Above k (suc j) m a.1, Above-le {i = n} {n = suc j} m (omega arith) a.1)

  pub assign-Above : (k : ℕ) (v : V) (n : ℕ) (m : OrdMap V) → Above n m → Above n (assign k v m)
  unfolding assign
  assign-Above k v n [] a = tt
  assign-Above k v n ((j, w) ∷ m) a = ground (arith, assign-Above k v (suc j) m a.1)

  pub find-insert :
      (j k : ℕ) (v : V) (n : ℕ) (m : OrdMap V)
      → Above n m
      → find j (insert k v m) ≡ (if k == j then or_some (find k m) v else find j m)
  unfolding find insert
  find-insert j k v n [] a = ground arith
  find-insert j k v n ((i, w) ∷ m) a =
      ground (arith, find-insert j k v (suc i) m a.1, find_below k (suc i) m)

  pub find-erase :
      (j k n : ℕ) (m : OrdMap V)
      → Above n m
      → find j (erase k m) ≡ (if k == j then none else find j m)
  unfolding find erase
  find-erase j k n [] a = ground arith
  find-erase j k n ((i, w) ∷ m) a =
      ground (arith, find-erase j k (suc i) m a.1, find_below j (suc i) m)

  pub find-assign :
      (j k : ℕ) (v : V) (m : OrdMap V)
      → find j (assign k v m) ≡ (if k == j then replaced (find k m) v else find j m)
  unfolding find assign
  find-assign j k v [] = ground arith
  find-assign j k v ((i, w) ∷ m) = ground (arith, find-assign j k v m)

  pub erase_absent : (k : ℕ) (m : OrdMap V) → find k m ≡ none → erase k m ≡ m
  unfolding find erase
  erase_absent k [] e = refl
  erase_absent k ((j, w) ∷ m) e = ground (arith, erase_absent k m)

  pub length-erase :
      (k : ℕ) (m : OrdMap V) (w : V) → find k m ≡ some w → length (erase k m) + 1 ≡ length m
  unfolding find erase
  length-erase k [] w e = ground arith
  length-erase k ((j, v) ∷ m) w e = ground (arith, length-erase k m w)

  pub total-insert :
      (f : V → ℕ) (k : ℕ) (v : V) (m : OrdMap V)
      → find k m ≡ none
      → total f (insert k v m) ≡ f v + total f m
  unfolding find insert total
  total-insert f k v [] e = refl
  total-insert f k v ((j, w) ∷ m) e = ground (arith, total-insert f k v m)

  pub total-erase :
      (f : V → ℕ) (k : ℕ) (m : OrdMap V) (w : V)
      → find k m ≡ some w
      → total f (erase k m) + f w ≡ total f m
  unfolding find erase total
  total-erase f k [] w e = ground arith
  total-erase f k ((j, v) ∷ m) w e = ground (arith, total-erase f k m w)
