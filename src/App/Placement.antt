-- ===== src/App/Placement.antt =====
-- Each element stands in the chain that its key hashes to.
use cachecoherence.Base.{
  ℕ, zero, suc, ◌<◌, ◌≡◌, refl, some, List, [], ◌∷◌, arith, ◌==◌, length, set, length-set,
  get_or-set, get_elem?, Bool-cases, inl, inr,
}
use cachecoherence.Defs.Address.{GlobalAddress}
use cachecoherence.App.HashTable.{Elem, Table, hash_bucket, bucket, unlink, push, pop}
use cachecoherence.App.Stacks.{hash_bucket-lt}
use cachecoherence.App.Sessions.{bare, get_or-replicate}

abbrev pub IsPlaced : Table → Type 0
IsPlaced t = (b i : ℕ) (e : Elem) → get_elem? (bucket t b) i ≡ some e → hash_bucket t e.key ≡ b

no_elem : {P : Type 0} (i : ℕ) (e : Elem) (l : List Elem) → l ≡ [] → get_elem? l i ≡ some e → P
no_elem i e [] empty at = absurd (ground arith)
no_elem i e (x ∷ l) empty at = absurd (ground arith)

-- An element of a list that is longer by one at the front.
behind :
    (x e : Elem) (rest chain : List Elem) (i : ℕ)
    → ((m : ℕ) → get_elem? rest m ≡ some e → (j : ℕ) × (get_elem? chain j ≡ some e))
    → get_elem? (x ∷ rest) i ≡ some e
    → (j : ℕ) × (get_elem? (x ∷ chain) j ≡ some e)
behind x e rest chain zero h at = (0, at)
behind x e rest chain (suc m) h at = let (j, found) = h m at in (suc j, found)

get_elem?-unlink :
    (k : ℕ) (chain : List Elem) (i : ℕ) (e : Elem)
    → get_elem? (unlink k chain) i ≡ some e
    → (j : ℕ) × (get_elem? chain j ≡ some e)
unfolding unlink
get_elem?-unlink k [] i e at = (i, at)
get_elem?-unlink k (x ∷ chain) i e at = elim (Bool-cases (x.key == k)) [
  | inl here ↦ (suc i, ground (arith, at, here))
  | inr there ↦
      behind x e (unlink k chain) chain i (λ m q. get_elem?-unlink k chain m e q)
        (ground (arith, at, there))
]

pub bare-IsPlaced : (n : ℕ) → IsPlaced (bare n)
bare-IsPlaced n b i e at = no_elem i e _ (get_or-replicate {A = List Elem} n b []) at

-- A table of the same size with one other chain, of elements that belong there.
replaced :
    (t t' : Table) (b : ℕ) (chain : List Elem)
    → IsPlaced t
    → t'.storage ≡ set t.storage b chain
    → b < length t.storage
    → ((i : ℕ) (e : Elem) → get_elem? chain i ≡ some e → hash_bucket t e.key ≡ b)
    → IsPlaced t'
unfolding hash_bucket
replaced t t' b chain h same lt belongs c i e at =
    let size = length-set t.storage b chain in
    let now = get_or-set t.storage b c chain [] lt in
    elim (Bool-cases (b == c)) [
      | inl here ↦ ground (arith, same, size, now, at, belongs i e)
      | inr there ↦ ground (arith, same, size, now, at, h c i e)
    ]

pub push-IsPlaced :
    (t : Table) (k : ℕ) (g : GlobalAddress)
    → 0 < length t.storage
    → IsPlaced t
    → IsPlaced (push t k g)
unfolding push
push-IsPlaced t k g pos h =
    replaced t (push t k g) (hash_bucket t k) _ h refl (hash_bucket-lt t k pos) (belongs)
  where
    belongs :
        (i : ℕ) (e : Elem)
        → get_elem? (record { key = k; gaddr = g } ∷ bucket t (hash_bucket t k)) i ≡ some e
        → hash_bucket t e.key ≡ hash_bucket t k
    belongs zero e at = ground (arith, at)
    belongs (suc i) e at = h (hash_bucket t k) i e at

pub pop-IsPlaced : (t : Table) (k : ℕ) → 0 < length t.storage → IsPlaced t → IsPlaced (pop t k)
unfolding pop
pop-IsPlaced t k pos h =
    replaced t (pop t k) (hash_bucket t k) _ h refl (hash_bucket-lt t k pos) (λ i e at.
      let (j, old) = get_elem?-unlink k (bucket t (hash_bucket t k)) i e at in
      h (hash_bucket t k) j e old)
