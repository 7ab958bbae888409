-- ===== src/Cache/Leak.antt =====
-- `removeCacheItem` does not give back the space of the item, and what follows from that.
use cachecoherence.Base.{
  ℕ, ◌+◌, ◌^◌, ◌≤◌, ◌<◌, ◌≡◌, refl, ap, [], ◌∷◌, some, arith, length, stop, out_of_fuel, le→leb,
  lt→ltb, lt→not_leb,
}
use cachecoherence.Base.OrdMap
use cachecoherence.Base.OrdMap.{OrdMap, Above}
use cachecoherence.Defs.Address.{GlobalAddress, Platform}
use cachecoherence.Cache.{CacheItem, Cache, key, add_cache_item, remove_cache_item, evict}
use cachecoherence.Cache.Accounting.{size_of, IsAccounted}
use cachecoherence.Cache.Eviction.{evict-never}

-- Removing an item loses the space that it took: the books no longer balance, by its size.
pub remove-leaks :
    (p : Platform) (c : Cache) (g : GlobalAddress) (it : CacheItem)
    → IsAccounted c
    → OrdMap.find (key p g) c.items ≡ some it
    → let c' = (remove_cache_item p c g).1 in
      c'.available_size + OrdMap.total size_of c'.items + size_of it ≡ c'.max_size
unfolding remove_cache_item
remove-leaks p c g it a found =
    omega (arith, OrdMap.total-erase size_of (key p g) c.items it found, a.balanced)

nil_of_length : (m : OrdMap CacheItem) → length m ≡ 0 → m ≡ []
nil_of_length [] e = refl
nil_of_length (x ∷ m) e = absurd (omega arith)

-- With nothing left to remove, the loop never makes room.
evict-empty :
    (fuel : ℕ) (c : Cache) (size : ℕ)
    → c.items ≡ []
    → c.available_size < 2 ^ 64
    → c.available_size < size
    → evict fuel c size ≡ stop out_of_fuel
unfolding evict
evict-empty fuel c size e small short =
    evict-never 1 c size (rw e tt) small (rw e (omega arith)) first fuel
  where
    first : evict 1 c size ≡ stop out_of_fuel
    first = rw (lt→ltb c.available_size size short, evict)

-- A cache whose only item has been invalidated refuses to take up an address that an empty cache
-- has room for, if the item took the space: `addCacheItem` then loops for ever.
pub add-remove_stuck :
    (p : Platform) (c : Cache) (g h : GlobalAddress) (it : CacheItem)
    → IsAccounted c
    → OrdMap.find (key p g) c.items ≡ some it
    → length c.items ≡ 1
    → h.size ≤ c.max_size
    → c.max_size < h.size + size_of it
    → let c' = (remove_cache_item p c g).1 in
      (add_cache_item p c' h it ≡ stop out_of_fuel)
      × ((fuel : ℕ) → evict fuel c' h.size ≡ stop out_of_fuel)
unfolding remove_cache_item add_cache_item OrdMap.total
add-remove_stuck p c g h it a found one fits big =
    let k = key p g in
    let empty : OrdMap.erase k c.items ≡ [] =
      nil_of_length _ (omega (arith, OrdMap.length-erase k c.items it found)) in
    let nothing : OrdMap.total size_of (OrdMap.erase k c.items) ≡ 0 =
      ap (OrdMap.total size_of) empty in
    let short : c.available_size < h.size =
      omega (arith, OrdMap.total-erase size_of k c.items it found, nothing, a.balanced, big) in
    let small : c.available_size < 2 ^ 64 = omega (arith, a.balanced, a.small) in
    let never =
      λ (fuel : ℕ). evict-empty fuel (remove_cache_item p c g).1 h.size empty small short in
    (rw (le→leb h.size c.max_size fits, lt→not_leb c.available_size h.size short) (never _), never)
