-- ===== src/App/Simulation.antt =====
-- The whole contract of the table: its operations on the abstract table, which has a stack of words
-- under each key and a number of entries, and each operation of the code against it.
use cachecoherence.Base.{
  ℕ, ◌+◌, ◌-◌, ◌%◌, ◌^◌, ◌≡◌, refl, ap, ◌∙◌, Option, none, some, List, [], ◌∷◌, arith, Option-cases,
  inl, inr, ◌⊎◌, map, Returns, ok, Run-cases, ◌<◌,
}
use cachecoherence.Defs.Address.{GlobalAddress}
use cachecoherence.App.Interface.{Values, Memory}
use cachecoherence.App.HashTable.{
  Table, hash_bucket, bucket, find, push, pop, new, insert, erase, get, count,
}
use cachecoherence.App.Stacks.{stack-absent, stack-found}
use cachecoherence.App.Sessions.{bare, bare-IsValid, stack-bare}
use cachecoherence.App.Placement.{IsPlaced, bare-IsPlaced, push-IsPlaced, pop-IsPlaced}
use cachecoherence.App.Methods.{
  IsValid, words, decoded, inserted, erased, insert-words, get-words, erase-words,
}

-- The abstract table.
pub record Stacks : Type 0 where
  pub under : ℕ → List (Option ℕ)
  pub entries : ℕ

abbrev pub nothing : Stacks
nothing = record { under = λ j. []; entries = 0 }

-- One more entry, and one fewer, on the machine's counter.
abbrev pub one_more : ℕ → ℕ
one_more n = (n + 1) % 2 ^ 64

abbrev pub one_fewer : ℕ → ℕ
one_fewer n = (n + 2 ^ 64 - 1) % 2 ^ 64

-- The counter after the top under a key has been taken away, if there is one.
abbrev pub without_one : List (Option ℕ) → ℕ → ℕ
without_one [] n = n
without_one (w ∷ ws) n = one_fewer n

amount-push :
    (t : Table) (k : ℕ) (g : GlobalAddress) (n : ℕ)
    → t.amount_elements ≡ n
    → (push t k g).amount_elements ≡ one_more n
unfolding push
amount-push t k g n e = ap one_more e

amount-pop : (t : Table) (k : ℕ) → (pop t k).amount_elements ≡ one_fewer t.amount_elements
unfolding pop
amount-pop t k = refl

-- What an insertion makes of the table, and what an erasure does.
pushed_by :
    {V : Type 0} (values : Values V) (memory : Memory) (t : Table) (k : ℕ) (x : V)
    (s : memory.State) (r : Table × memory.State)
    → insert values memory t k x s ≡ ok r
    → (g : GlobalAddress) × (r.0 ≡ push t k g)
unfolding insert
pushed_by values memory t k x s r e = elim (Run-cases (memory.malloc values.size s)) [
  | inl ((g, s'), run) ↦ (g, ground (arith, e, run))
  | inr (why, stuck) ↦ absurd (ground (arith, e, stuck))
]

popped_by :
    {V : Type 0} (values : Values V) (memory : Memory) (t : Table) (k : ℕ) (s : memory.State)
    (r : Table × memory.State)
    → erase values memory t k s ≡ ok r
    → ((words values memory t s k ≡ []) × (r.0 ≡ t))
      ⊎ ((w : Option ℕ) × (ws : List (Option ℕ)) × (words values memory t s k ≡ w ∷ ws)
          × (r.0 ≡ pop t k))
unfolding erase
popped_by values memory t k s r e = elim (Option-cases (find k (bucket t (hash_bucket t k)))) [
  | inl absent ↦
      inl (ap (map (memory.content s)) (stack-absent t k absent), ground (arith, e, absent))
  | inr (x, found) ↦
      inr (_, _, ap (map (memory.content s)) (stack-found t k x found).1, ground (arith, e, found))
]

module _ {V : Type 0} (values : Values V) (memory : Memory) where
  open memory use {State, IsSound, content, malloc_lem, read_lem}

  -- The table and its memory stand for the abstract table.
  pub record Simulates (a : Stacks) (t : Table) (s : State) : Type 0 where
    pub valid : IsValid values memory t s
    pub same : (j : ℕ) → words values memory t s j ≡ a.under j
    pub counted : t.amount_elements ≡ a.entries
    pub placed : IsPlaced t

  pub bare-Simulates : (n : ℕ) (s : State) → 0 < n → IsSound s → Simulates nothing (bare n) s
  bare-Simulates n s pos sound = record {
    valid = bare-IsValid values memory n s pos sound;
    same = λ j. rw (stack-bare n j);
    counted = refl;
    placed = bare-IsPlaced n;
  }

  pub new-Simulates : (s : State) → IsSound s → Simulates nothing new s
  unfolding new
  new-Simulates s sound = bare-Simulates 64 s (omega arith) sound

  -- The abstract operations.
  abbrev pub put : Stacks → ℕ → ℕ → Stacks
  put a k w = record { under = inserted values memory a.under k w; entries = one_more a.entries }

  abbrev pub taken : Stacks → ℕ → Stacks
  taken a k = record {
    under = erased values memory a.under k;
    entries = without_one (a.under k) a.entries;
  }

  pub insert-Simulates :
      (a : Stacks) (t : Table) (s : State) (k : ℕ) (x : V)
      → Simulates a t s
      → Returns (insert values memory t k x s) λ r. Simulates (put a k (values.to_word x)) r.0 r.1
  insert-Simulates a t s k x h =
      let (r, runs, (v, ws)) = insert-words values memory t s k x h.valid in
      let (g, made) = pushed_by values memory t k x s r runs in
      (
        r,
        runs,
        record {
          valid = v;
          same = λ j. ground (arith, ws j, h.same j);
          counted = rw made (amount-push t k g a.entries h.counted);
          placed = rw made (push-IsPlaced t k g h.valid.roomy h.placed);
        },
      )

  pub erase-Simulates :
      (a : Stacks) (t : Table) (s : State) (k : ℕ)
      → Simulates a t s
      → Returns (erase values memory t k s) λ r. Simulates (taken a k) r.0 r.1
  erase-Simulates a t s k h =
      let (r, runs, (v, ws)) = erase-words values memory t s k h.valid in
      let left = popped_by values memory t k s r runs in
      (
        r,
        runs,
        record {
          valid = v;
          same = λ j. ground (arith, ws j, h.same j);
          counted = ground (arith, left, amount-pop t k, h.same k, h.counted);
          placed = elim left [
            | inl (_, kept) ↦ rw kept h.placed
            | inr (_, _, _, shorter) ↦ rw shorter (pop-IsPlaced t k h.valid.roomy h.placed)
          ];
        },
      )

  pub get-Simulates :
      (a : Stacks) (t : Table) (s : State) (k : ℕ)
      → Simulates a t s
      → Returns
          (get values memory t k s)
          λ r. (r.0 ≡ decoded values memory (a.under k)) × Simulates a t r.1
  get-Simulates a t s k h =
      let (r, runs, (found, v, ws)) = get-words values memory t s k h.valid in
      (
        r,
        runs,
        (
          found ∙ ap (decoded values memory) (h.same k),
          record { valid = v; same = λ j. ws j ∙ h.same j; counted = h.counted; placed = h.placed },
        ),
      )

  -- `has_value`
  abbrev pub has_value : Option V → ℕ
  has_value none = 0
  has_value (some x) = 1

  pub count-Simulates :
      (a : Stacks) (t : Table) (s : State) (k : ℕ)
      → Simulates a t s
      → Returns
          (count values memory t k s)
          λ r. (r.0 ≡ has_value (decoded values memory (a.under k))) × Simulates a t r.1
  unfolding count
  count-Simulates a t s k h =
      let (r, runs, (found, h')) = get-Simulates a t s k h in
      ((has_value r.0, r.1), ground (arith, runs), (ap has_value found, h'))
