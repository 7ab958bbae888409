-- ===== src/App/Methods.antt =====
-- The operations of the table over any memory that keeps its laws: they implement a map from keys to
-- stacks of words, one for each insertion that has not been erased.
use cachecoherence.Base.{
  ℕ, ◌<◌, ◌≡◌, ◌≢◌, refl, sym, ◌∙◌, Option, none, some, List, [], ◌∷◌, arith, ◌==◌, ==_iff,
  if◌then◌else◌, length, length-set, Bool-cases, Option-cases, inl, inr, map, get_elem?, map_congr,
  Returns,
}
use mathlib.Core.Option
use cachecoherence.Defs.Address.{GlobalAddress}
use cachecoherence.Defs.Message.{Data}
use cachecoherence.App.Interface.{Values, Memory}
use cachecoherence.App.HashTable.{Table, hash_bucket, bucket, find, push, pop, insert, erase, get}
use cachecoherence.App.Stacks.{
  stack, top, rest_of, stack-absent, stack-found, stack-push, stack-pop, get_elem?-push,
  get_elem?-pop,
}

roomy-push :
    (t : Table) (k : ℕ) (g : GlobalAddress) → 0 < length t.storage → 0 < length (push t k g).storage
unfolding push
roomy-push t k g h = omega (arith, length-set {0})

roomy-pop : (t : Table) (k : ℕ) → 0 < length t.storage → 0 < length (pop t k).storage
unfolding pop
roomy-pop t k h = omega (arith, length-set {0})

pub first_elem :
    (l : List GlobalAddress) (g : GlobalAddress) → top l ≡ some g → get_elem? l 0 ≡ some g
first_elem [] g e = e
first_elem (x ∷ l) g e = e

abbrev pub without_top : List (Option ℕ) → List (Option ℕ)
without_top [] = []
without_top (w ∷ ws) = ws

map-rest_of :
    (f : GlobalAddress → Option ℕ) (l : List GlobalAddress)
    → map f (rest_of l) ≡ without_top (map f l)
map-rest_of f [] = refl
map-rest_of f (x ∷ l) = refl

module _ {V : Type 0} (values : Values V) (memory : Memory) where
  open memory use {State, IsSound, content, malloc_lem, write_lem, read_lem, free_lem}

  -- Each element points to allocated memory, and no two to the same.
  pub record IsValid (t : Table) (s : State) : Type 0 where
    pub roomy : 0 < length t.storage
    pub sound : IsSound s
    pub live :
        (j a : ℕ) (g : GlobalAddress)
        → get_elem? (stack t j) a ≡ some g
        → (w : ℕ) × (content s g ≡ some w)
    pub apart :
        (j k a b : ℕ) (g h : GlobalAddress)
        → get_elem? (stack t j) a ≡ some g
        → get_elem? (stack t k) b ≡ some h
        → g.ptr ≡ h.ptr
        → (j ≡ k) × (a ≡ b)

  -- The words under a key, the one last inserted first.
  abbrev pub words : Table → State → ℕ → List (Option ℕ)
  words t s j = map (content s) (stack t j)

  -- A valid table after an insertion of an allocated address that no element points to.
  push-IsValid :
      (t : Table) (s s' : State) (k w : ℕ) (g : GlobalAddress)
      → IsValid t s
      → IsSound s'
      → content s' g ≡ some w
      → ((h : GlobalAddress) (u : ℕ)
          → content s h ≡ some u
          → (h.ptr ≢ g.ptr) × (content s' h ≡ some u))
      → IsValid (push t k g) s'
  push-IsValid t s s' k w g v sound here others = record {
    roomy = roomy-push t k g v.roomy;
    sound = sound;
    live = λ j a h e. elim (get_elem?-push t k j a g h v.roomy e) [
      | inl (_, _, same) ↦ (w, rw same here)
      | inr (b, old, _) ↦ let (u, has) = v.live j b h old in (u, (others h u has).1)
    ];
    apart = λ i j a b x y p q same.
        let new_apart : (m c : ℕ) (z : GlobalAddress)
            → get_elem? (stack t m) c ≡ some z
            → z.ptr ≢ g.ptr =
          λ m c z e. let (u, has) = v.live m c z e in (others z u has).0 in
        elim (get_elem?-push t k i a g x v.roomy p) [
          | inl (ik, a0, xg) ↦ elim (get_elem?-push t k j b g y v.roomy q) [
            | inl (jk, b0, yg) ↦ (ik ∙ sym jk, a0 ∙ sym b0)
            | inr (c, old, _) ↦ absurd (new_apart j c y old (ground arith))
          ]
          | inr (c, old, where_a) ↦ elim (get_elem?-push t k j b g y v.roomy q) [
            | inl (jk, b0, yg) ↦ absurd (new_apart i c x old (ground arith))
            | inr (c', old', where_b) ↦
                let (ij, cc') = v.apart i j c c' x y old old' same in ground arith
          ]
        ];
  }

  -- What stays in the table is not what was freed.
  pub popped_apart :
      (t : Table) (s : State) (k : ℕ) (g : GlobalAddress)
      → IsValid t s
      → top (stack t k) ≡ some g
      → (j a : ℕ) (h : GlobalAddress) → get_elem? (stack (pop t k) j) a ≡ some h
      → h.ptr ≢ g.ptr
  popped_apart t s k g v first j a h e same =
      let (b, old, moved) = get_elem?-pop t k j a h v.roomy e in
      let (jk, b0) = v.apart j k b 0 h g old (first_elem (stack t k) g first) same in ground arith

  -- A valid table after an erasure of the top under a key, whose memory has been freed.
  pub pop-IsValid :
      (t : Table) (s s' : State) (k : ℕ) (g : GlobalAddress)
      → IsValid t s
      → IsSound s'
      → top (stack t k) ≡ some g
      → ((h : GlobalAddress) → h.ptr ≢ g.ptr → content s' h ≡ content s h)
      → IsValid (pop t k) s'
  pop-IsValid t s s' k g v sound first others = record {
    roomy = roomy-pop t k v.roomy;
    sound = sound;
    live = λ j a h e.
        let (b, old, moved) = get_elem?-pop t k j a h v.roomy e in
        let (u, has) = v.live j b h old in
        (u, others h (popped_apart t s k g v first j a h e) ∙ has);
    apart = λ i j a b x y p q same.
        let (c, old, from) = get_elem?-pop t k i a x v.roomy p in
        let (c', old', from') = get_elem?-pop t k j b y v.roomy q in
        let (ij, cc') = v.apart i j c c' x y old old' same in ground arith;
  }

  -- Where no word has changed, the table is as valid as before, and has the same words.
  pub framed :
      (t : Table) (s s' : State)
      → IsValid t s
      → IsSound s'
      → ((h : GlobalAddress) → content s' h ≡ content s h)
      → IsValid t s' × ((j : ℕ) → words t s' j ≡ words t s j)
  framed t s s' v sound frame = (
    record {
      roomy = v.roomy;
      sound = sound;
      live = λ j a h at. let (u, old) = v.live j a h at in (u, frame h ∙ old);
      apart = v.apart;
    },
    λ j. map_congr (content s') (content s) (stack t j) (λ i y at. frame y),
  )

  -- What `get` makes of the words under a key.
  abbrev pub decoded : List (Option ℕ) → Option V
  decoded [] = none
  decoded (w ∷ ws) = Option.map values.of_word w

  -- The words under each key after an insertion and after an erasure.
  abbrev pub inserted : (ℕ → List (Option ℕ)) → ℕ → ℕ → ℕ → List (Option ℕ)
  inserted ws k w j = if k == j then some w ∷ ws j else ws j

  abbrev pub erased : (ℕ → List (Option ℕ)) → ℕ → ℕ → List (Option ℕ)
  erased ws k j = if k == j then without_top (ws j) else ws j

  -- The table after an insertion of an allocated address that no element points to, and its words.
  pub pushed :
      (t : Table) (s s' : State) (k w : ℕ) (g : GlobalAddress)
      → IsValid t s
      → IsSound s'
      → content s' g ≡ some w
      → ((h : GlobalAddress) (u : ℕ)
          → content s h ≡ some u
          → (h.ptr ≢ g.ptr) × (content s' h ≡ some u))
      → IsValid (push t k g) s' × ((j : ℕ) → words (push t k g) s' j ≡ inserted (words t s) k w j)
  pushed t s s' k w g v sound here others = (
    push-IsValid t s s' k w g v sound here others,
    λ j.
        let same : map (content s') (stack t j) ≡ map (content s) (stack t j) =
          map_congr (content s') (content s) (stack t j)
            (λ i y e. let (u, has) = v.live j i y e in (others y u has).1 ∙ sym has) in
        rw (stack-push t k j g v.roomy) (ground (arith, here, same)),
  )

  -- An insertion succeeds and adds the value on top of what stands under its key; it does not matter
  -- whether the key was there. Nothing changes under the other keys.
  pub insert-words :
      (t : Table) (s : State) (k : ℕ) (x : V)
      → IsValid t s
      → Returns (insert values memory t k x s) λ r.
        IsValid r.0 r.1 × ((j : ℕ) → words r.0 r.1 j ≡ inserted (words t s) k (values.to_word x) j)
  unfolding insert
  insert-words t s k x v =
      let ((g, s₁), run₁, (sound₁, _, (w, here₁), kept, apart)) =
        malloc_lem values.size s v.sound in
      let d : Data = record { size = values.size; value = values.to_word x; ga = g } in
      let ((_, s₂), run₂, (sound₂, here₂, frame)) = write_lem d s₁ w sound₁ here₁ in
      let others = λ (h : GlobalAddress) (u : ℕ) (has : content s h ≡ some u).
        let away = apart h u has in
        let same : content s₂ h ≡ some u = frame h away ∙ kept h u has in
        let both : (h.ptr ≢ g.ptr) × (content s₂ h ≡ some u) = (away, same) in both in
      (
        (push t k g, s₂),
        rw (run₁, run₂),
        pushed t s s₂ k (values.to_word x) g v sound₂ here₂ others,
      )

  -- A look-up succeeds, returns the value last inserted under the key and not yet erased, if any, and
  -- changes nothing.
  pub get-words :
      (t : Table) (s : State) (k : ℕ)
      → IsValid t s
      → Returns (get values memory t k s) λ r.
        (r.0 ≡ decoded (words t s k)) × IsValid t r.1 × ((j : ℕ) → words t r.1 j ≡ words t s j)
  unfolding get
  get-words t s k v = elim (Option-cases (find k (bucket t (hash_bucket t k)))) [
    | inl absent ↦ ((none, s), rw (absent, get), (rw (stack-absent t k absent), v, λ j. refl))
    | inr (e, found) ↦
        let (first, whole) = stack-found t k e found in
        let (w, has) = v.live k 0 e.gaddr (first_elem (stack t k) e.gaddr first) in
        let ((w', s'), runs, (sound, same, frame)) = read_lem e.gaddr s w v.sound has in
        let (v', ws) = framed t s s' v sound frame in
        ((some (values.of_word w'), s'), rw (found, get, runs), (rw (whole, has, same), v', ws))
  ]

  unchanged :
      (t : Table) (s : State) (k j : ℕ) → stack t k ≡ [] → words t s j ≡ erased (words t s) k j
  unchanged t s k j e = elim (Bool-cases (k == j)) [
    | inl here ↦ let same : stack t j ≡ [] = rw (← (==_iff k j).0 here) e in rw (here, same)
    | inr there ↦ rw there
  ]

  words-pop :
      (t : Table) (s : State) (k j : ℕ)
      → 0 < length t.storage
      → map (content s) (stack (pop t k) j) ≡ erased (words t s) k j
  words-pop t s k j h = elim (Bool-cases (k == j)) [
    | inl here ↦ rw (stack-pop t k j h, here) (map-rest_of (content s) (stack t j))
    | inr there ↦ rw (stack-pop t k j h, there)
  ]

  -- An erasure succeeds and takes away the value last inserted under the key, if any; what stood
  -- there before that comes back. Nothing changes under the other keys.
  pub erase-words :
      (t : Table) (s : State) (k : ℕ)
      → IsValid t s
      → Returns
          (erase values memory t k s)
          λ r. IsValid r.0 r.1 × ((j : ℕ) → words r.0 r.1 j ≡ erased (words t s) k j)
  unfolding erase
  erase-words t s k v = elim (Option-cases (find k (bucket t (hash_bucket t k)))) [
    | inl absent ↦
        ((t, s), rw (absent, erase), (v, λ j. unchanged t s k j (stack-absent t k absent)))
    | inr (e, found) ↦
        let (first, whole) = stack-found t k e found in
        let at_top = first_elem (stack t k) e.gaddr first in
        let (w, has) = v.live k 0 e.gaddr at_top in
        let ((_, s'), runs, (sound, gone, frame)) = free_lem e.gaddr s w v.sound has in
        (
          (pop t k, s'),
          rw (found, erase, runs),
          (
            pop-IsValid t s s' k e.gaddr v sound first frame,
            λ j.
                let kept : map (content s') (stack (pop t k) j)
                    ≡ map (content s) (stack (pop t k) j) =
                  map_congr (content s') (content s) (stack (pop t k) j)
                    λ i y at. frame y (popped_apart t s k e.gaddr v first j i y at) in
                kept ∙ words-pop t s k j v.roomy,
          ),
        )
  ]
