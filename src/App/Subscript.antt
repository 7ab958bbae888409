-- ===== src/App/Subscript.antt =====
-- `operator[]` on the abstract table.
use cachecoherence.Base.{
  ℕ, ◌≡◌, ◌≢◌, refl, ap, sym, ◌∙◌, Option, some, List, [], ◌∷◌, arith, Option-cases, inl, inr, ◌⊎◌,
  map, Returns,
}
use cachecoherence.Defs.Address.{GlobalAddress}
use cachecoherence.App.Interface.{Values, Memory}
use cachecoherence.App.HashTable.{Table, hash_bucket, bucket, find, push, index, dangling}
use cachecoherence.App.Stacks.{stack, rest_of, stack-absent, stack-found}
use cachecoherence.App.Placement.{push-IsPlaced}
use cachecoherence.App.Methods.{first_elem, pushed, framed}
use cachecoherence.App.Simulation.{Stacks, one_more, Simulates, put}

module _ {V : Type 0} (values : Values V) (memory : Memory) where
  open memory use {State, IsSound, content, malloc_lem, read_lem}

  -- What `operator[]` makes of the abstract table: a key that is there changes nothing; another one is
  -- entered with some word.
  abbrev pub Reaches : Stacks → ℕ → Stacks → Type 0
  Reaches a k a' =
      ((w : ℕ) × (ws : List (Option ℕ)) × (a.under k ≡ some w ∷ ws) × (a' ≡ a))
      ⊎ ((w : ℕ) × (a.under k ≡ []) × (a' ≡ put values memory a k w))

  pub index-Simulates :
      (a : Stacks) (t : Table) (s : State) (k : ℕ)
      → Simulates values memory a t s
      → Returns
          (index values memory t k s)
          λ r. (a' : Stacks) × Reaches a k a' × Simulates values memory a' r.1 r.2
  unfolding index push
  index-Simulates a t s k h = elim (Option-cases (find k (bucket t (hash_bucket t k)))) [
    | inl absent ↦
        let ((g, s₁), run₁, (sound₁, _, (w, here₁), kept, apart)) =
          malloc_lem values.size s h.valid.sound in
        let ((w', s₂), run₂, (sound₂, same, frame)) = read_lem g s₁ w sound₁ here₁ in
        let others : (y : GlobalAddress) (u : ℕ)
            → content s y ≡ some u
            → (y.ptr ≢ g.ptr) × (content s₂ y ≡ some u) =
          λ y u has. (apart y u has, frame y ∙ kept y u has) in
        let (v, ws) = pushed values memory t s s₂ k w g h.valid sound₂ (frame g ∙ here₁) others in
        (
          (dangling, push t k g, s₂),
          rw (absent, index, run₁, run₂),
          (
            put values memory a k w,
            inr (w, sym (h.same k) ∙ ap (map (content s)) (stack-absent t k absent), refl),
            record {
              valid = v;
              same = λ j. ground (arith, ws j, h.same j);
              counted = ap one_more h.counted;
              placed = push-IsPlaced t k g h.valid.roomy h.placed;
            },
          ),
        )
    | inr (e, found) ↦
        let (first, whole) = stack-found t k e found in
        let (w, has) = h.valid.live k 0 e.gaddr (first_elem (stack t k) e.gaddr first) in
        let ((w', s'), runs, (sound, same, frame)) = read_lem e.gaddr s w h.valid.sound has in
        let (v, ws) = framed values memory t s s' h.valid sound frame in
        (
          (dangling, t, s'),
          rw (found, index, runs),
          (
            a,
            inl (w, map (content s) (rest_of (stack t k)), sym (h.same k) ∙ rw (whole, has), refl),
            record {
              valid = v;
              same = λ j. ws j ∙ h.same j;
              counted = h.counted;
              placed = h.placed;
            },
          ),
        )
  ]
