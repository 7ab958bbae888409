-- ===== src/Tests/Tables.antt =====
-- The hash table on a node of its own: tests, and the theorems at concrete inputs.
use cachecoherence.Base.{
  ℕ, ◌+◌, ◌≤◌, ◌<◌, ◌≡◌, refl, none, Bool, true, [], ◌∷◌, arith, Returns, inl, List, length,
}
use cachecoherence.Base.OrdMap
use cachecoherence.Base.OrdMap.{OrdMap}
use cachecoherence.Defs.Address.{GlobalAddress}
use cachecoherence.Node.State.{Node}
use cachecoherence.App.Interface.{Memory}
use cachecoherence.App.HashTable
use cachecoherence.App.HashTable.{Table, insert, erase, get, count, clear}
use cachecoherence.App.Methods.{IsValid, insert-words}
use cachecoherence.Defs.Message.{SaveData}
use cachecoherence.App.OnNode.{IsQuiet, node_memory}
use cachecoherence.App.Sessions.{bare, new-IsValid}
use cachecoherence.App.Placement.{IsPlaced}
use cachecoherence.App.Shrinking.{Points, Clear}
use cachecoherence.App.Clearing.{clear-frees}
use cachecoherence.App.Histories.{
  Call, insertion, erasure, look_up, subscript, containment, elements, clearing, perform_all,
  Follows, perform_all-Follows,
}
use cachecoherence.App.Simulation.{Stacks, nothing, Simulates, new-Simulates, insert-Simulates}
use cachecoherence.Main.Locally.{bools}
use cachecoherence.Tests.Data.{platform, keeper, no_service, empty_cache}

-- A pointer beyond all that are in use.
pub beyond : {V : Type 0} → OrdMap V → ℕ
beyond [] = 1
beyond ((k, v) ∷ m) = k + beyond m

pub beyond_pos : {V : Type 0} (m : OrdMap V) → 0 < beyond m
unfolding beyond
beyond_pos [] = omega arith
beyond_pos ((k, v) ∷ m) = omega (arith, beyond_pos m)

pub find-beyond : {V : Type 0} (m : OrdMap V) (j : ℕ) → beyond m ≤ j → OrdMap.find j m ≡ none
unfolding beyond OrdMap.find
find-beyond [] j h = refl
find-beyond ((k, v) ∷ m) j h = ground (arith, find-beyond m j, beyond_pos m)

-- What the allocated memory reads as.
abbrev pub garbage : SaveData
garbage = record { value = 99; iscached = 1; owner_node = 7; sharer_nodes = [] }

abbrev pub on_keeper : Memory
on_keeper =
    node_memory empty_cache no_service platform (λ n. beyond n.memory)
      (λ n. find-beyond n.memory (beyond n.memory) (omega arith)) (λ n. beyond_pos n.memory)
      (λ n. garbage) (λ n. (omega arith, refl))

pub keeper-IsQuiet : IsQuiet empty_cache keeper
unfolding OrdMap.find
keeper-IsQuiet = record {
  is_keeper = refl;
  sorted = tt;
  idle = λ j. inl refl;
  cached = refl;
  ordered = tt;
  no_null = refl;
  unshared = λ ptr d e. absurd (ground arith);
}

empty-IsValid : IsValid bools on_keeper HashTable.new keeper
empty-IsValid = new-IsValid bools on_keeper keeper keeper-IsQuiet

-- A table with one entry, and the memory under it.
one_entry : Table × Node
one_entry = (insert-words bools on_keeper HashTable.new keeper 5 true empty-IsValid).0

one_entry-IsValid : IsValid bools on_keeper one_entry.0 one_entry.1
unfolding one_entry
one_entry-IsValid = (insert-words bools on_keeper HashTable.new keeper 5 true empty-IsValid).2.0

-- Each kind of call once, and a key that is not there.
abbrev calls : List (Call Bool)
calls =
    insertion 5 true
    ∷ subscript 9
    ∷ containment 5
    ∷ erasure 5
    ∷ look_up 5
    ∷ elements
    ∷ clearing
    ∷ elements
    ∷ []

perform_all-Follows_example : Returns (perform_all bools on_keeper calls HashTable.new keeper) λ r.
    (a' : Stacks) × Follows bools on_keeper nothing calls r.0 a'
    × Simulates bools on_keeper a' r.1 r.2
perform_all-Follows_example =
    perform_all-Follows bools on_keeper calls nothing HashTable.new keeper
      (new-Simulates bools on_keeper keeper keeper-IsQuiet)

one_entry-Simulates :
    Returns
      (insert bools on_keeper HashTable.new 5 true keeper)
      λ r. IsValid bools on_keeper r.0 r.1 × IsPlaced r.0
one_entry-Simulates =
    let (r, runs, h) =
      insert-Simulates bools on_keeper nothing HashTable.new keeper 5 true
        (new-Simulates bools on_keeper keeper keeper-IsQuiet) in
    (r, runs, (h.valid, h.placed))

-- The table with one entry, as the insertion leaves it.
placed_entry : Table × Node
placed_entry = one_entry-Simulates.0

placed_entry-IsValid : IsValid bools on_keeper placed_entry.0 placed_entry.1
unfolding placed_entry
placed_entry-IsValid = one_entry-Simulates.2.0

placed_entry-IsPlaced : IsPlaced placed_entry.0
unfolding placed_entry
placed_entry-IsPlaced = one_entry-Simulates.2.1

clear-frees_example : Returns (clear bools on_keeper placed_entry.0 placed_entry.1) λ r.
    (r.0 ≡ bare (length placed_entry.0.storage))
    × on_keeper.IsSound r.1
    × ((h : GlobalAddress) → Points placed_entry.0 h → on_keeper.content r.1 h ≡ none)
    × ((h : GlobalAddress)
        → Clear placed_entry.0 h
        → on_keeper.content r.1 h ≡ on_keeper.content placed_entry.1 h)
clear-frees_example =
    clear-frees bools on_keeper placed_entry.0 placed_entry.1 placed_entry-IsValid
      placed_entry-IsPlaced
