-- ===== src/App/Stacks.antt =====
-- The table as a stack of addresses under each key: what the chains mean, and what the changes of the
-- table do to it.
use cachecoherence.Base.{
  ℕ, zero, suc, ◌+◌, ◌-◌, ◌%◌, ◌^◌, ◌<◌, ◌≡◌, ◌≢◌, refl, ap, ◌∙◌, Option, none, some, List, [], ◌∷◌,
  arith, ◌==◌, if◌then◌else◌, length, set, length-set, get_or-set, get_elem?, Bool-cases, ◌⊎◌, inl,
  inr,
}
use cachecoherence.Defs.Address.{GlobalAddress}
use cachecoherence.App.HashTable.{Elem, Table, hash_bucket, bucket, find, unlink, push, pop}

-- The addresses under a key, along a chain.
unfoldable pub matching : ℕ → List Elem → List GlobalAddress
matching key [] = []
matching key (e ∷ chain) = if e.key == key then e.gaddr ∷ matching key chain else matching key chain

-- The addresses under a key, the one last inserted first.
unfoldable pub stack : Table → ℕ → List GlobalAddress
unfolding matching hash_bucket
stack t key = matching key (bucket t (hash_bucket t key))

abbrev pub top : List GlobalAddress → Option GlobalAddress
top [] = none
top (g ∷ gs) = some g

abbrev pub rest_of : List GlobalAddress → List GlobalAddress
rest_of [] = []
rest_of (g ∷ gs) = gs

abbrev pub address_of : Option Elem → Option GlobalAddress
address_of none = none
address_of (some e) = some e.gaddr

matching-unlink :
    (j k : ℕ) (chain : List Elem)
    → matching j (unlink k chain)
      ≡ (if k == j then rest_of (matching j chain) else matching j chain)
unfolding matching unlink
matching-unlink j k [] = ground arith
matching-unlink j k (e ∷ chain) = ground (arith, matching-unlink j k chain)

top-matching : (k : ℕ) (chain : List Elem) → top (matching k chain) ≡ address_of (find k chain)
unfolding matching find
top-matching k [] = refl
top-matching k (e ∷ chain) = ground (arith, top-matching k chain)

-- The element that the walk along the chain finds is the top of the stack.
pub top-stack :
    (t : Table) (k : ℕ) → top (stack t k) ≡ address_of (find k (bucket t (hash_bucket t k)))
unfolding stack
top-stack t k = top-matching k (bucket t (hash_bucket t k))

nil_of_top : (l : List GlobalAddress) → top l ≡ none → l ≡ []
nil_of_top [] e = refl
nil_of_top (x ∷ l) e = absurd (ground arith)

cons_of_top : (l : List GlobalAddress) (g : GlobalAddress) → top l ≡ some g → l ≡ g ∷ rest_of l
cons_of_top [] g e = absurd (ground arith)
cons_of_top (x ∷ l) g e = ground arith

-- A walk that finds nothing: the stack is empty. A walk that finds an element: it is on top.
pub stack-absent : (t : Table) (k : ℕ) → find k (bucket t (hash_bucket t k)) ≡ none → stack t k ≡ []
stack-absent t k e = nil_of_top (stack t k) (top-stack t k ∙ ap address_of e)

pub stack-found :
    (t : Table) (k : ℕ) (e : Elem)
    → find k (bucket t (hash_bucket t k)) ≡ some e
    → (top (stack t k) ≡ some e.gaddr) × (stack t k ≡ e.gaddr ∷ rest_of (stack t k))
stack-found t k e found =
    let first = top-stack t k ∙ ap address_of found in
    (first, cons_of_top (stack t k) e.gaddr first)

pub hash_bucket-lt : (t : Table) (k : ℕ) → 0 < length t.storage → hash_bucket t k < length t.storage
unfolding hash_bucket
hash_bucket-lt t k h = omega arith

-- Replacing the chain of one bucket, in a table of any size.
replace :
    (t : Table) (k j : ℕ) (chain : List Elem) (amount : ℕ)
    → 0 < length t.storage
    → let t' : Table = record {
      storage = set t.storage (hash_bucket t k) chain;
      amount_elements = amount;
    } in
      bucket t' (hash_bucket t' j)
      ≡ (if hash_bucket t k == hash_bucket t j then chain else bucket t (hash_bucket t j))
unfolding hash_bucket
replace t k j chain amount h =
    rw (length-set t.storage (hash_bucket t k) chain)
      (get_or-set t.storage (hash_bucket t k) (hash_bucket t j) chain [] (hash_bucket-lt t k h))

-- An insertion pushes the address under its key, and leaves the other keys alone.
pub stack-push :
    (t : Table) (k j : ℕ) (g : GlobalAddress)
    → 0 < length t.storage
    → stack (push t k g) j ≡ (if k == j then g ∷ stack t j else stack t j)
unfolding stack push
stack-push t k j g h =
    let chain = record { key = k; gaddr = g } ∷ bucket t (hash_bucket t k) in
    ground (arith, replace t k j chain ((t.amount_elements + 1) % 2 ^ 64) h)

-- An erasure takes the top under its key, and leaves the other keys alone.
pub stack-pop :
    (t : Table) (k j : ℕ)
    → 0 < length t.storage
    → stack (pop t k) j ≡ (if k == j then rest_of (stack t j) else stack t j)
unfolding stack pop
stack-pop t k j h =
    let chain = unlink k (bucket t (hash_bucket t k)) in
    ground (
      arith,
      replace t k j chain ((t.amount_elements + 2 ^ 64 - 1) % 2 ^ 64) h,
      matching-unlink j k (bucket t (hash_bucket t k)),
    )

-- Where an address of the table after an insertion stood before.
abbrev pub PushedAt : Table → ℕ → GlobalAddress → ℕ → ℕ → GlobalAddress → Type 0
PushedAt t k g j a h =
    ((j ≡ k) × (a ≡ 0) × (h ≡ g))
    ⊎ ((b : ℕ) × (get_elem? (stack t j) b ≡ some h)
        × (((j ≡ k) × (a ≡ suc b)) ⊎ ((j ≢ k) × (a ≡ b))))

pushed_at :
    (l l' : List GlobalAddress) (t : Table) (k j a : ℕ) (g h : GlobalAddress)
    → stack t j ≡ l
    → l' ≡ (if k == j then g ∷ l else l)
    → get_elem? l' a ≡ some h
    → PushedAt t k g j a h
pushed_at l l' t k j a g h same e at = elim (Bool-cases (k == j)) [
  | inl here ↦ go a (ground arith) (ground arith)
  | inr there ↦ inr (a, ground arith, inr (ground arith, refl))
]
  where
    go : (a : ℕ) → j ≡ k → get_elem? (g ∷ l) a ≡ some h → PushedAt t k g j a h
    go zero here q = inl (here, refl, ground arith)
    go (suc b) here q = inr (b, ground arith, inl (here, refl))

pub get_elem?-push :
    (t : Table) (k j a : ℕ) (g h : GlobalAddress)
    → 0 < length t.storage
    → get_elem? (stack (push t k g) j) a ≡ some h
    → PushedAt t k g j a h
get_elem?-push t k j a g h pos e =
    pushed_at (stack t j) (stack (push t k g) j) t k j a g h refl (stack-push t k j g pos) e

-- Where an address of the table after an erasure stood before.
abbrev pub PoppedFrom : Table → ℕ → ℕ → ℕ → GlobalAddress → Type 0
PoppedFrom t k j a h =
    (b : ℕ) × (get_elem? (stack t j) b ≡ some h) × (((j ≡ k) × (b ≡ suc a)) ⊎ ((j ≢ k) × (b ≡ a)))

get_elem?-rest_of : (l : List GlobalAddress) (a : ℕ) → get_elem? (rest_of l) a ≡ get_elem? l (suc a)
get_elem?-rest_of [] a = refl
get_elem?-rest_of (x ∷ l) a = refl

pub get_elem?-pop :
    (t : Table) (k j a : ℕ) (h : GlobalAddress)
    → 0 < length t.storage
    → get_elem? (stack (pop t k) j) a ≡ some h
    → PoppedFrom t k j a h
get_elem?-pop t k j a h pos e =
    let moved = stack-pop t k j pos in
    let tail = get_elem?-rest_of (stack t j) a in
    elim (Bool-cases (k == j)) [
      | inl here ↦ (suc a, ground arith, inl (ground arith, refl))
      | inr there ↦ (a, ground arith, inr (ground arith, refl))
    ]
