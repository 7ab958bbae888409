-- ===== src/Cluster/Invalidation.antt =====
-- A round of invalidations, as the nodes that are told go through it.
use cachecoherence.Base.{
  ℕ, ◌≡◌, refl, ap, none, true, List, [], ◌∷◌, arith, ◌==◌, length, Bool-cases, inl, inr, ◌⊎◌,
}
use cachecoherence.Base.OrdMap
use cachecoherence.Base.OrdMap.{Above}
use cachecoherence.Defs.Address.{GlobalAddress, Platform}
use cachecoherence.Cache.{key, remove_cache_item}
use cachecoherence.Node.State.{Input, Node}
use cachecoherence.Node.Dialling.{answering}
use cachecoherence.Cluster.World.{put, sent, Drops, no_one, one}
use cachecoherence.Cluster.Sessions.{dropped, serve-invalidation_inv}
use cachecoherence.Cluster.Coherence.{among, copy}

abbrev pub AllSorted : (ℕ → Node) → Type 0
AllSorted clients = (i : ℕ) → Above 0 (clients i).cache.items

-- A drop takes the copy out, and leaves the cache in order.
pub copy-dropped :
    (p : Platform) (at_port : ℕ) (n : Node) (g : GlobalAddress)
    → Above 0 n.cache.items
    → (copy p g (dropped p at_port n g) ≡ none) × Above 0 (dropped p at_port n g).cache.items
unfolding remove_cache_item
copy-dropped p at_port n g a =
    let k = key p g in
    (
      ground (arith, OrdMap.find-erase k k 0 n.cache.items a),
      OrdMap.erase-Above k 0 n.cache.items a,
    )

-- After a round nobody has a copy who had none before or was told.
pub record IsDropped (p : Platform) (g : GlobalAddress) (nodes : List ℕ) (clients : ℕ → Node)
    (answers : List Input) (clients' : ℕ → Node) : Type 0 where
  pub removed : List ℕ
  pub answered : answers ≡ answering removed []
  pub each : length removed ≡ length nodes
  pub ids : (i : ℕ) → (clients' i).id ≡ (clients i).id
  pub sorted : AllSorted clients'
  pub gone :
      (i : ℕ)
      → (among i nodes ≡ true) ⊎ (copy p g (clients i) ≡ none)
      → copy p g (clients' i) ≡ none

still :
    (p : Platform) (g : GlobalAddress) (nodes : List ℕ) (clients : ℕ → Node) (j : ℕ) (n : Node)
    (i : ℕ)
    → copy p g n ≡ none
    → (among i (j ∷ nodes) ≡ true) ⊎ (copy p g (clients i) ≡ none)
    → (among i nodes ≡ true) ⊎ (copy p g (put clients j n i) ≡ none)
still p g nodes clients j n i emptied h = elim (Bool-cases (j == i)) [
  | inl told ↦ inr (rw told emptied)
  | inr other ↦ elim h [
    | inl among_rest ↦ inl (ground arith)
    | inr none_before ↦ inr (rw other none_before)
  ]
]

pub Drops-IsDropped :
    {p : Platform} {g : GlobalAddress} {id : ℕ} {nodes : List ℕ} {clients clients' : ℕ → Node}
    {answers : List Input}
    → Drops p g id nodes clients answers clients'
    → AllSorted clients
    → IsDropped p g nodes clients answers clients'
Drops-IsDropped no_one a = record {
  removed = [];
  answered = refl;
  each = refl;
  ids = λ i. refl;
  sorted = a;
  gone = λ i h. ground arith;
}
Drops-IsDropped {p} {g} {id} {clients} (one j fuel n' runs rest) a =
    let after = serve-invalidation_inv p fuel j (clients j) n' g id runs in
    let (gone, ascends) = copy-dropped p j (clients j) g (a j) in
    let emptied : copy p g n' ≡ none = rw after gone in
    let ascends' : Above 0 n'.cache.items = rw after ascends in
    let later = Drops-IsDropped rest (λ i. ground (arith, a i, ascends')) in
    let said : sent n'.log ≡ sent (dropped p j (clients j) g).log =
      ap (λ (n : Node). sent n.log) after in
    record {
      removed = (remove_cache_item p (clients j).cache g).0 ∷ later.removed;
      answered = ground (arith, later.answered, said);
      each = omega (arith, later.each);
      ids = λ i. ground (arith, later.ids i, after);
      sorted = later.sorted;
      gone = λ i h. later.gone i (still p g _ clients j n' i emptied h);
    }
