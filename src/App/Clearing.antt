-- ===== src/App/Clearing.antt =====
-- `clear`, which is also the destructor: it frees all that the table points to, and nothing else.
use cachecoherence.Base.{
  ℕ, suc, ◌+◌, ◌-◌, ◌<◌, ◌≡◌, refl, ap, ◌∙◌, none, List, [], ◌∷◌, arith, ◌==◌, if◌then◌else◌,
  length, get_or, Bool-cases, leb, inl, inr, replicate, Returns,
}
use cachecoherence.Defs.Address.{GlobalAddress}
use cachecoherence.App.Interface.{Values, Memory}
use cachecoherence.App.HashTable.{
  Elem, Table, hash_bucket, bucket, pop, clear, clear_chain, clear_all,
}
use cachecoherence.App.Stacks.{stack, stack-found}
use cachecoherence.App.Methods.{IsValid, first_elem, pop-IsValid}
use cachecoherence.App.Sessions.{bare}
use cachecoherence.App.Placement.{IsPlaced, pop-IsPlaced}
use cachecoherence.App.Simulation.{Stacks, nothing, Simulates, bare-Simulates}
use cachecoherence.App.Shrinking.{
  Points, Clear, no_address, stack-empty, pop-head, Shrinks, Shrinks-refl, Shrinks-trans,
  pop-Shrinks,
}

module _ {V : Type 0} (values : Values V) (memory : Memory) where
  open memory use {State, IsSound, content, free_lem}

  -- The inner loop empties its chain, and leaves the others.
  clear_chain-Shrinks :
      (chain : List Elem) (b : ℕ) (t : Table) (s : State)
      → IsValid values memory t s
      → IsPlaced t
      → b < length t.storage
      → bucket t b ≡ chain
      → Returns (clear_chain values memory chain s) λ s'.
        (t' : Table) × IsValid values memory t' s'
        × IsPlaced t'
        × (length t'.storage ≡ length t.storage)
        × ((c : ℕ) → bucket t' c ≡ (if b == c then [] else bucket t c))
        × Shrinks values memory t s t' s'
  unfolding clear_chain
  clear_chain-Shrinks [] b t s v h lt e =
      (s, refl, (t, v, h, refl, λ c. ground (arith, e), Shrinks-refl values memory t s))
  clear_chain-Shrinks (e ∷ chain) b t s v h lt same =
      let k = e.key in
      let home : hash_bucket t k ≡ b = h b 0 e (rw same) in
      let (found, changed, size) = pop-head t e chain b home lt same in
      let (first, _) = stack-found t k e found in
      let (w, has) = v.live k 0 e.gaddr (first_elem (stack t k) e.gaddr first) in
      let (r, run, (sound, freed, others)) = free_lem e.gaddr s w v.sound has in
      let t₁ = pop t k in
      let v₁ = pop-IsValid values memory t s r.1 k e.gaddr v sound first others in
      let (s', runs, (t', v', h', size', emptied, shrinks)) =
        clear_chain-Shrinks chain b t₁ r.1 v₁ (pop-IsPlaced t k v.roomy h) (omega (arith, lt, size))
          (ground (arith, changed b)) in
      (
        s',
        rw run runs,
        (
          t',
          v',
          h',
          size' ∙ size,
          λ c. ground (arith, emptied c, changed c),
          Shrinks-trans values memory t t₁ t' s r.1 s'
              (pop-Shrinks values memory t s r.1 k e.gaddr v first freed others) shrinks,
        ),
      )

  -- The outer loop empties each chain from the `k`-th on.
  clear_all-Shrinks :
      (chains : List (List Elem)) (k : ℕ) (t : Table) (s : State)
      → IsValid values memory t s
      → IsPlaced t
      → k + length chains ≡ length t.storage
      → ((i : ℕ) → get_or chains i [] ≡ bucket t (k + i))
      → Returns (clear_all values memory chains s) λ r.
        (r.0 ≡ replicate (length chains) [])
        × ((t' : Table) × IsValid values memory t' r.1
            × ((c : ℕ) → bucket t' c ≡ (if leb k c then [] else bucket t c))
            × Shrinks values memory t s t' r.1)
  unfolding clear_all
  clear_all-Shrinks [] k t s v h size same = (
    ([], s),
    refl,
    (
      refl,
      (
        t,
        v,
        λ c. elim (Bool-cases (leb k c)) [
          | inl beyond ↦
              let at : k + (c - k) ≡ c = ground (arith, beyond) in
              ground (arith, at, same (c - k), beyond)
          | inr before ↦ ground (arith, before)
        ],
        Shrinks-refl values memory t s,
      ),
    ),
  )
  clear_all-Shrinks (b ∷ chains) k t s v h size same =
      let here : bucket t k ≡ b = ground (arith, same 0) in
      let (s₁, run, (t₁, v₁, h₁, size₁, emptied, shrinks)) =
        clear_chain-Shrinks b k t s v h (omega (arith, size)) here in
      let (r, runs, (cleared, (t', v', emptied', shrinks'))) =
        clear_all-Shrinks chains (k + 1) t₁ s₁ v₁ h₁ (omega (arith, size, size₁))
          (λ i. ground (arith, emptied (k + 1 + i), same (suc i))) in
      (
        ([] ∷ r.0, r.1),
        rw (run, runs),
        (
          ap (◌∷◌ []) cleared,
          (
            t',
            v',
            λ c. ground (arith, emptied' c, emptied c),
            Shrinks-trans values memory t t₁ t' s s₁ r.1 shrinks shrinks',
          ),
        ),
      )

  -- Clearing a table whose elements stand in their chains ends; no element is left and the counter
  -- is zero, the memory behind each element is freed, and no other memory is touched.
  pub clear-frees :
      (t : Table) (s : State)
      → IsValid values memory t s
      → IsPlaced t
      → Returns (clear values memory t s) λ r.
        (r.0 ≡ bare (length t.storage))
        × IsSound r.1
        × ((h : GlobalAddress) → Points t h → content r.1 h ≡ none)
        × ((h : GlobalAddress) → Clear t h → content r.1 h ≡ content s h)
  unfolding clear
  clear-frees t s v h =
      let (r, runs, (cleared, (t', v', emptied, shrinks))) =
        clear_all-Shrinks t.storage 0 t s v h (omega arith) (λ i. ground arith) in
      let empty : (j : ℕ) → stack t' j ≡ [] =
        λ j. stack-empty t' j (ground (arith, emptied (hash_bucket t' j))) in
      (
        (record { storage = r.0; amount_elements = 0 }, r.1),
        rw runs,
        (
          ap (λ x. record { storage = x; amount_elements = 0 }) cleared,
          v'.sound,
          λ x at. elim (shrinks.gone x at) [
            | inl (freed, c) ↦ freed
            | inr (j, a, there) ↦ absurd (no_address (stack t' j) a x (empty j) there)
          ],
          shrinks.frame,
        ),
      )

  -- After that the table stands for the abstract table with nothing in it.
  pub clear-Simulates :
      (a : Stacks) (t : Table) (s : State)
      → Simulates values memory a t s
      → Returns (clear values memory t s) λ r. Simulates values memory nothing r.0 r.1
  clear-Simulates a t s h =
      let (r, runs, (cleared, sound, _, _)) = clear-frees t s h.valid h.placed in
      (
        r,
        runs,
        rw cleared (bare-Simulates values memory (length t.storage) r.1 h.valid.roomy sound),
      )
