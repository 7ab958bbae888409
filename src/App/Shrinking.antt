-- ===== src/App/Shrinking.antt =====
-- Tables that lose elements, together with the memory behind these.
use cachecoherence.Base.{
  ℕ, zero, suc, ◌<◌, ◌≡◌, ◌≢◌, refl, ◌∙◌, none, some, List, [], ◌∷◌, arith, ◌==◌, if◌then◌else◌,
  length, length-set, get_or-set, get_elem?, Bool-cases, inl, inr, ◌⊎◌,
}
use cachecoherence.Defs.Address.{GlobalAddress}
use cachecoherence.App.Interface.{Values, Memory}
use cachecoherence.App.HashTable.{Elem, Table, hash_bucket, bucket, find, unlink, pop}
use cachecoherence.App.Stacks.{stack, top, rest_of, matching, get_elem?-pop, stack-pop}
use cachecoherence.App.Methods.{IsValid, first_elem, popped_apart}

-- The table has an element with the address.
abbrev pub Points : Table → GlobalAddress → Type 0
Points t h = (j : ℕ) × (a : ℕ) × (get_elem? (stack t j) a ≡ some h)

-- No element of the table points to the memory of the address.
abbrev pub Clear : Table → GlobalAddress → Type 0
Clear t h = (g : GlobalAddress) → Points t g → h.ptr ≢ g.ptr

-- An address on a stack is on top, or below.
top_or_below :
    (l : List GlobalAddress) (g h : GlobalAddress) (a : ℕ)
    → top l ≡ some g
    → get_elem? l a ≡ some h
    → (h ≡ g) ⊎ ((b : ℕ) × (get_elem? (rest_of l) b ≡ some h))
top_or_below [] g h a first at = absurd (ground arith)
top_or_below (x ∷ l) g h zero first at = inl (ground (arith, first, at))
top_or_below (x ∷ l) g h (suc a) first at = inr (a, at)

pub no_address :
    (l : List GlobalAddress) (a : ℕ) (h : GlobalAddress) → l ≡ [] → get_elem? l a ≢ some h
no_address [] a h e at = ground arith
no_address (x ∷ l) a h e at = ground arith

pub stack-empty : (t : Table) (j : ℕ) → bucket t (hash_bucket t j) ≡ [] → stack t j ≡ []
unfolding stack matching
stack-empty t j e = rw e

-- An erasure of the key at the head of a chain takes that element.
pub pop-head :
    (t : Table) (e : Elem) (chain : List Elem) (b : ℕ)
    → hash_bucket t e.key ≡ b
    → b < length t.storage
    → bucket t b ≡ e ∷ chain
    → (find e.key (bucket t (hash_bucket t e.key)) ≡ some e)
      × ((c : ℕ) → bucket (pop t e.key) c ≡ (if b == c then chain else bucket t c))
      × (length (pop t e.key).storage ≡ length t.storage)
unfolding find pop unlink
pop-head t e chain b home lt same =
    let found : find e.key (bucket t (hash_bucket t e.key)) ≡ some e =
      rw (home, same) (ground arith) in
    let left : unlink e.key (bucket t (hash_bucket t e.key)) ≡ chain =
      rw (home, same) (ground arith) in
    (
      found,
      λ c. rw (left, home) (get_or-set t.storage b c chain [] lt),
      length-set t.storage (hash_bucket t e.key) (unlink e.key (bucket t (hash_bucket t e.key))),
    )

module _ {V : Type 0} (values : Values V) (memory : Memory) where
  open memory use {State, IsSound, content, free_lem}

  -- From one table and memory to another, elements go, and their memory with them.
  pub record Shrinks (t : Table) (s : State) (t' : Table) (s' : State) : Type 0 where
    pub fewer : (h : GlobalAddress) → Points t' h → Points t h
    pub frame : (h : GlobalAddress) → Clear t h → content s' h ≡ content s h
    pub gone : (h : GlobalAddress) → Points t h → ((content s' h ≡ none) × Clear t' h) ⊎ Points t' h

  pub Shrinks-refl : (t : Table) (s : State) → Shrinks t s t s
  Shrinks-refl t s = record { fewer = λ h at. at; frame = λ h c. refl; gone = λ h at. inr at }

  pub Shrinks-trans :
      (t t' t'' : Table) (s s' s'' : State)
      → Shrinks t s t' s'
      → Shrinks t' s' t'' s''
      → Shrinks t s t'' s''
  Shrinks-trans t t' t'' s s' s'' f g = record {
    fewer = λ h at. f.fewer h (g.fewer h at);
    frame = λ h c. g.frame h (λ x at. c x (f.fewer x at)) ∙ f.frame h c;
    gone = λ h at. elim (f.gone h at) [
      | inl (freed, c) ↦ inl (g.frame h c ∙ freed, λ x there. c x (g.fewer x there))
      | inr there ↦ g.gone h there
    ];
  }

  -- One element of a chain less.
  pub pop-Shrinks :
      (t : Table) (s s' : State) (k : ℕ) (g : GlobalAddress)
      → IsValid values memory t s
      → top (stack t k) ≡ some g
      → content s' g ≡ none
      → ((h : GlobalAddress) → h.ptr ≢ g.ptr → content s' h ≡ content s h)
      → Shrinks t s (pop t k) s'
  pop-Shrinks t s s' k g v first freed others = record {
    fewer = λ h (j, a, at). let (b, old, _) = get_elem?-pop t k j a h v.roomy at in (j, b, old);
    frame = λ h c. others h (c g (k, 0, first_elem (stack t k) g first));
    gone = λ h (j, a, at). elim (Bool-cases (k == j)) [
      | inl here ↦
          let same : j ≡ k = ground (arith, here) in
          elim (top_or_below (stack t j) g h a (rw same first) at) [
            | inl it ↦ inl (
              rw it freed,
              λ x (i, b, there) together.
                  popped_apart values memory t s k g v first i b x there
                    (ground (arith, it, together)),
            )
            | inr (b, below) ↦ inr (j, b, rw (stack-pop t k j v.roomy, here) below)
          ]
      | inr there ↦ inr (j, a, rw (stack-pop t k j v.roomy, there) at)
    ];
  }
