-- ===== src/Cache/Bounds.antt =====
-- How much a cache holds, over any sequence of calls of its operations: src/Cache.cpp.
use cachecoherence.Base.{
  ℕ, zero, suc, ◌+◌, ◌-◌, ◌≤◌, ◌≡◌, refl, List, [], ◌∷◌, some, inl, inr, arith, All, Run, ok, ◌>>=◌,
  ltb, leb, length, Bool-cases, Option-cases, Run-cases,
}
use cachecoherence.Base.OrdMap
use cachecoherence.Base.OrdMap.{OrdMap, Above}
use cachecoherence.Defs.Address.{GlobalAddress, Platform}
use cachecoherence.Cache.{
  Cache, CacheItem, key, new, blank, scan, remove_oldest_item, evict, add_cache_item,
  remove_cache_item, get_cache_item, alter_cache_item,
}
use cachecoherence.Cache.Accounting.{size_of}
use cachecoherence.Cache.Eviction.{scan-find}

-- A call; those with an item are for the address that the item names, as with all of their callers.
pub data Call : Type 0 where
  adds alters : CacheItem → Call
  gets : GlobalAddress → ℕ → Call
  removes : GlobalAddress → Call

abbrev pub address_of : Call → GlobalAddress
address_of (adds it) = it.global_address
address_of (alters it) = it.global_address
address_of (gets g now) = g
address_of (removes g) = g

abbrev pub perform : Platform → Call → Cache → Run Cache
perform p (adds it) c = add_cache_item p c it.global_address it
perform p (alters it) c = alter_cache_item p c it it.global_address
perform p (gets g now) c = ok (get_cache_item p c g now).1
perform p (removes g) c = ok (remove_cache_item p c g).1

unfoldable pub perform_all : Platform → List Call → Cache → Run Cache
perform_all p [] c = ok c
perform_all p (call ∷ calls) c = perform p call c >>= perform_all p calls

-- The sizes of the addresses follow from their keys.
abbrev pub IsSized : Platform → (ℕ → ℕ) → Call → Type 0
IsSized p size_at call = (address_of call).size ≡ size_at (key p (address_of call))

abbrev pub IsSizedEntry : (ℕ → ℕ) → ℕ × CacheItem → Type 0
IsSizedEntry size_at e = size_of e.1 ≡ size_at e.0

pub record IsBounded (size_at : ℕ → ℕ) (c : Cache) : Type 0 where
  pub sorted : Above 0 c.items
  pub sized : All (IsSizedEntry size_at) c.items
  pub bounded : c.available_size + OrdMap.total size_of c.items ≤ c.max_size
  pub whole : c.max_size ≡ 512

module _ (size_at : ℕ → ℕ) where
  erase-sized :
      (k : ℕ) (m : OrdMap CacheItem)
      → All (IsSizedEntry size_at) m
      → All (IsSizedEntry size_at) (OrdMap.erase k m)
        × (OrdMap.total size_of (OrdMap.erase k m) ≤ OrdMap.total size_of m)
  unfolding OrdMap.erase OrdMap.total
  erase-sized k [] a = (tt, omega arith)
  erase-sized k ((j, w) ∷ m) a = ground (arith, erase-sized k m a.1)

  insert-sized :
      (k : ℕ) (v : CacheItem) (m : OrdMap CacheItem)
      → size_of v ≡ size_at k
      → All (IsSizedEntry size_at) m
      → All (IsSizedEntry size_at) (OrdMap.insert k v m)
        × (OrdMap.total size_of (OrdMap.insert k v m) ≤ size_of v + OrdMap.total size_of m)
  unfolding OrdMap.insert OrdMap.total
  insert-sized k v [] h a = ((h, tt), omega arith)
  insert-sized k v ((j, w) ∷ m) h a = ground (arith, insert-sized k v m h a.1)

  assign-sized :
      (k : ℕ) (v : CacheItem) (m : OrdMap CacheItem)
      → size_of v ≡ size_at k
      → All (IsSizedEntry size_at) m
      → All (IsSizedEntry size_at) (OrdMap.assign k v m)
        × (OrdMap.total size_of (OrdMap.assign k v m) ≡ OrdMap.total size_of m)
  unfolding OrdMap.assign OrdMap.total
  assign-sized k v [] h a = (tt, refl)
  assign-sized k v ((j, w) ∷ m) h a = ground (arith, assign-sized k v m h a.1)

  find-sized :
      (k : ℕ) (v : CacheItem) (m : OrdMap CacheItem)
      → All (IsSizedEntry size_at) m
      → OrdMap.find k m ≡ some v
      → size_of v ≡ size_at k
  unfolding OrdMap.find
  find-sized k v [] a e = absurd (ground arith)
  find-sized k v ((j, w) ∷ m) a e = ground (arith, find-sized k v m a.1)

  remove_oldest_item-IsBounded :
      (c : Cache) → IsBounded size_at c → IsBounded size_at (remove_oldest_item c)
  unfolding remove_oldest_item
  remove_oldest_item-IsBounded c b =
      let latest = scan blank c.items in
      let (a, less) = erase-sized latest.0 c.items b.sized in
      let room : c.available_size
            + size_of latest.1
            + OrdMap.total size_of (OrdMap.erase latest.0 c.items)
          ≤ c.max_size =
        elim (scan-find blank 0 c.items b.sorted) [
          | inl same ↦ rw same (ground (arith, less, b.bounded, same))
          | inr found ↦
              omega (arith, OrdMap.total-erase size_of latest.0 c.items latest.1 found, b.bounded)
        ] in
      record {
        sorted = OrdMap.erase-Above latest.0 0 c.items b.sorted;
        sized = a;
        bounded = omega (arith, room, b.whole);
        whole = b.whole;
      }

  evict-IsBounded :
      (fuel : ℕ) (c c' : Cache) (size : ℕ)
      → IsBounded size_at c
      → evict fuel c size ≡ ok c'
      → IsBounded size_at c'
  unfolding evict
  evict-IsBounded zero c c' size b runs = absurd (ground arith)
  evict-IsBounded (suc fuel) c c' size b runs = elim (Bool-cases (ltb c.available_size size)) [
    | inl more ↦
        evict-IsBounded fuel (remove_oldest_item c) c' size (remove_oldest_item-IsBounded c b)
          (ground arith)
    | inr done ↦ let same : c' ≡ c = ground arith in rw same b
  ]

  module _ (p : Platform) where
    add_cache_item-IsBounded :
        (c c' : Cache) (it : CacheItem)
        → IsSized p size_at (adds it)
        → IsBounded size_at c
        → add_cache_item p c it.global_address it ≡ ok c'
        → IsBounded size_at c'
    unfolding add_cache_item
    add_cache_item-IsBounded c c' it h b runs =
        let g = it.global_address in
        let k = key p g in
        elim (Bool-cases (leb g.size c.max_size)) [
          | inr large ↦ absurd (ground arith)
          | inl fits ↦ elim (Bool-cases (leb g.size c.available_size)) [
            | inr full ↦ evict-IsBounded (suc (length c.items)) c c' g.size b (ground arith)
            | inl room ↦
                let (a, less) = insert-sized k it c.items h b.sized in
                let same : c' ≡ record c {
                  items = OrdMap.insert k it c.items;
                  available_size = c.available_size - g.size;
                } =
                  ground arith in
                rw same (record {
                  sorted = OrdMap.insert-Above k it 0 c.items (omega arith) b.sorted;
                  sized = a;
                  bounded = ground (arith, less, b.bounded);
                  whole = b.whole;
                })
          ]
        ]

    assigned-IsBounded :
        (c : Cache) (k : ℕ) (it : CacheItem)
        → size_of it ≡ size_at k
        → IsBounded size_at c
        → IsBounded size_at (record c { items = OrdMap.assign k it c.items })
    assigned-IsBounded c k it h b =
        let (a, same) = assign-sized k it c.items h b.sized in
        record {
          sorted = OrdMap.assign-Above k it 0 c.items b.sorted;
          sized = a;
          bounded = omega (arith, same, b.bounded);
          whole = b.whole;
        }

    perform-IsBounded :
        (call : Call) (c c' : Cache)
        → IsSized p size_at call
        → IsBounded size_at c
        → perform p call c ≡ ok c'
        → IsBounded size_at c'
    unfolding alter_cache_item get_cache_item remove_cache_item
    perform-IsBounded (adds it) c c' h b runs = add_cache_item-IsBounded c c' it h b runs
    perform-IsBounded (alters it) c c' h b runs =
        let k = key p it.global_address in
        elim (Option-cases (OrdMap.find k c.items)) [
          | inl miss ↦ add_cache_item-IsBounded c c' it h b (ground arith)
          | inr (old, held) ↦
              let same : c' ≡ record c { items = OrdMap.assign k it c.items } = ground arith in
              rw same (assigned-IsBounded c k it h b)
        ]
    perform-IsBounded (gets g now) c c' h b runs =
        let k = key p g in
        elim (Option-cases (OrdMap.find k c.items)) [
          | inl miss ↦ let same : c' ≡ c = ground arith in rw same b
          | inr (old, held) ↦
              let it : CacheItem = record old { last_used = now } in
              let same : c' ≡ record c { items = OrdMap.assign k it c.items } = ground arith in
              rw same (assigned-IsBounded c k it (find-sized k old c.items b.sized held) b)
        ]
    perform-IsBounded (removes g) c c' h b runs =
        let k = key p g in
        let (a, less) = erase-sized k c.items b.sized in
        let same : c' ≡ record c { items = OrdMap.erase k c.items } = ground arith in
        rw same (record {
          sorted = OrdMap.erase-Above k 0 c.items b.sorted;
          sized = a;
          bounded = omega (arith, less, b.bounded);
          whole = b.whole;
        })

    from-IsBounded :
        (calls : List Call) (c c' : Cache)
        → All (IsSized p size_at) calls
        → IsBounded size_at c
        → perform_all p calls c ≡ ok c'
        → IsBounded size_at c'
    unfolding perform_all
    from-IsBounded [] c c' h b runs = let same : c' ≡ c = ground arith in rw same b
    from-IsBounded (call ∷ calls) c c' h b runs = elim (Run-cases (perform p call c)) [
      | inr (s, stuck) ↦ absurd (ground (arith, stuck))
      | inl (d, ends) ↦
          from-IsBounded calls d c' h.1 (perform-IsBounded call c d h.0 b ends)
            (ground (arith, ends, runs))
    ]

    -- However a new cache is used, as long as addresses of one key have one size: after any calls that
    -- end, the sizes of the items and the free space come to at most the 512
    -- bytes of the cache, and the items stand in the order of their keys, each with the size of its key.
    pub perform_all-IsBounded :
        (calls : List Call) (c : Cache)
        → All (IsSized p size_at) calls
        → perform_all p calls new ≡ ok c
        → IsBounded size_at c
    unfolding new OrdMap.total
    perform_all-IsBounded calls c h runs =
        from-IsBounded calls new c h
          (record { sorted = tt; sized = tt; bounded = omega arith; whole = refl }) runs
