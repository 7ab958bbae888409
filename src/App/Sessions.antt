-- ===== src/App/Sessions.antt =====
-- Sequences of the table's operations, from the empty table on.
use cachecoherence.Base.{
  ℕ, zero, suc, ◌≤◌, ◌<◌, ◌≡◌, refl, ap, ◌∙◌, Option, none, some, List, [], ◌∷◌, arith, ◌==◌,
  if◌then◌else◌, length, get_or, get_elem?, map, Returns, inl, inr, ◌⊎◌, ◌↔◌, replicate,
}
use cachecoherence.Defs.Address.{GlobalAddress}
use cachecoherence.App.Interface.{Values, Memory}
use cachecoherence.App.HashTable.{Elem, Table, new, insert, erase, get, count, hash_bucket}
use cachecoherence.App.Stacks.{stack}
use cachecoherence.App.Methods.{
  IsValid, words, decoded, inserted, erased, insert-words, get-words, erase-words,
}

pub get_or-replicate {ℓ} : {A : Type ℓ} (n i : ℕ) (a : A) → get_or (replicate n a) i a ≡ a
get_or-replicate zero i a = refl
get_or-replicate (suc n) zero a = refl
get_or-replicate (suc n) (suc i) a = get_or-replicate n i a

no_elem :
    {P : Type 0} (l : List GlobalAddress) (a : ℕ) (g : GlobalAddress)
    → l ≡ []
    → get_elem? l a ≡ some g
    → P
no_elem [] a g e at = absurd (ground arith)
no_elem (x ∷ l) a g e at = absurd (ground arith)

-- A table of `n` empty chains, such as the new one.
abbrev pub bare : ℕ → Table
bare n = record { storage = replicate n []; amount_elements = 0 }

pub stack-bare : (n j : ℕ) → stack (bare n) j ≡ []
unfolding stack
stack-bare n j = rw (get_or-replicate {A = List Elem} n (hash_bucket (bare n) j) [])

length-replicate {ℓ} : {A : Type ℓ} (n : ℕ) (a : A) → length (replicate n a) ≡ n
length-replicate zero a = refl
length-replicate (suc n) a = ap suc (length-replicate n a)

module _ {V : Type 0} (values : Values V) (memory : Memory) where
  open memory use {State, IsSound}

  -- An empty table is valid over any sound memory.
  pub bare-IsValid : (n : ℕ) (s : State) → 0 < n → IsSound s → IsValid values memory (bare n) s
  bare-IsValid n s pos sound = record {
    roomy = omega (arith, length-replicate {A = List Elem} n []);
    sound = sound;
    live = λ j a g e. no_elem (stack (bare n) j) a g (stack-bare n j) e;
    apart = λ i j a b x y p q same. no_elem (stack (bare n) i) a x (stack-bare n i) p;
  }

  pub new-IsValid : (s : State) → IsSound s → IsValid values memory new s
  unfolding new
  new-IsValid s sound = bare-IsValid 64 s (omega arith) sound

  decoded-inserted :
      (ws : ℕ → List (Option ℕ)) (k j : ℕ) (x : V)
      → decoded values memory (inserted values memory ws k (values.to_word x) j)
        ≡ (if k == j then some x else decoded values memory (ws j))
  decoded-inserted ws k j x = ground (arith, values.of_word-to_word x)

  erased-inserted :
      (ws ws' : ℕ → List (Option ℕ)) (k w : ℕ)
      → ((j : ℕ) → ws' j ≡ inserted values memory ws k w j)
      → (j : ℕ) → erased values memory ws' k j ≡ ws j
  erased-inserted ws ws' k w e j = ground (arith, e j)

  -- Right after an insertion a look-up of the key returns the value, and every other key reads as
  -- before, also where the key was there already.
  pub get-insert :
      (t : Table) (s : State) (k j : ℕ) (x : V)
      → IsValid values memory t s
      → Returns (insert values memory t k x s) λ r. Returns (get values memory r.0 j r.1) λ found.
        found.0 ≡ (if k == j then some x else decoded values memory (words values memory t s j))
  get-insert t s k j x v =
      let ((t', s'), runs, (v', ws)) = insert-words values memory t s k x v in
      let ((r, s''), gets, (same, _, _)) = get-words values memory t' s' j v' in
      (
        (t', s'),
        runs,
        (
          (r, s''),
          gets,
          same
              ∙ ap (decoded values memory) (ws j)
              ∙ decoded-inserted (words values memory t s) k j x,
        ),
      )

  -- An erasure right after an insertion of the same key puts back, under each key, what stood there
  -- before the insertion: an insertion hides an older value, and does not replace or refuse it.
  pub erase-insert :
      (t : Table) (s : State) (k : ℕ) (x : V)
      → IsValid values memory t s
      → Returns (insert values memory t k x s) λ r. Returns (erase values memory r.0 k r.1) λ e.
        IsValid values memory e.0 e.1
        × ((j : ℕ) → words values memory e.0 e.1 j ≡ words values memory t s j)
  erase-insert t s k x v =
      let ((t', s'), runs, (v', ws)) = insert-words values memory t s k x v in
      let ((t'', s''), erases, (v'', ws')) = erase-words values memory t' s' k v' in
      (
        (t', s'),
        runs,
        (
          (t'', s''),
          erases,
          (v'', λ j. ws' j ∙ erased-inserted (words values memory t s) _ k (values.to_word x) ws j),
        ),
      )

  words_cases :
      (t : Table) (s : State) (k : ℕ)
      → IsValid values memory t s
      → (l : List GlobalAddress) → stack t k ≡ l
      → (words values memory t s k ≡ [])
        ⊎ ((w : ℕ) × (ws : List (Option ℕ)) × (words values memory t s k ≡ some w ∷ ws))
  words_cases t s k v [] e = inl (rw e)
  words_cases t s k v (g ∷ l) e =
      let (w, has) = v.live k 0 g (rw e) in inr (w, map (memory.content s) l, rw (e, has))

  -- `count` is 1 where something stands under the key, and 0 where nothing does.
  pub count-words :
      (t : Table) (s : State) (k : ℕ)
      → IsValid values memory t s
      → Returns (count values memory t k s) λ r.
        ((r.0 ≡ 0) ↔ (words values memory t s k ≡ [])) × (r.0 ≤ 1) × IsValid values memory t r.1
  unfolding count
  count-words t s k v =
      let ((found, s'), gets, (same, v', _)) = get-words values memory t s k v in
      elim (words_cases t s k v (stack t k) refl) [
        | inl e ↦
            let nothing : found ≡ none = same ∙ ap (decoded values memory) e in
            ((0, s'), rw (gets, nothing), (((λ _. e), λ _. refl), omega arith, v'))
        | inr (w, ws, e) ↦
            let something : found ≡ some (values.of_word w) = same ∙ ap (decoded values memory) e in
            (
              (1, s'),
              rw (gets, something),
              (((λ z. absurd (omega arith)), λ n. absurd (ground arith)), omega arith, v'),
            )
      ]
