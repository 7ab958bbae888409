-- ===== src/Tests/Caching.antt =====
-- The cache: tests, and its theorems at concrete inputs.
use cachecoherence.Base.{
  ℕ, ◌+◌, ◌≤◌, ◌≡◌, refl, none, some, arith, stop, out_of_fuel, Returns, ◌==◌, if◌then◌else◌, ◌↔◌,
  ◌⊎◌, List, [], ◌∷◌,
}
use cachecoherence.Base.OrdMap
use cachecoherence.Base.OrdMap.{Above}
use cachecoherence.Defs.Address.{GlobalAddress}
use cachecoherence.Cache.{
  Cache, CacheItem, key, new, scan, add_cache_item, remove_cache_item, evict, remove_oldest_item,
  get_cache_item, alter_cache_item,
}
use cachecoherence.Cache.Accounting.{IsAccounted, size_of}
use cachecoherence.Cache.Eviction.{remove_oldest_item-newest}
use cachecoherence.Cache.Leak.{add-remove_stuck}
use cachecoherence.Cache.Lookup.{lookup, get-remove, get-add_collision}
use cachecoherence.Cache.Contents.{add_cache_item-Within}
use cachecoherence.Cache.Bounds.{
  Call, adds, gets, removes, alters, perform_all, IsBounded, perform_all-IsBounded,
}
use cachecoherence.Tests.Data.{platform, object, large, item, empty_cache, one_item}

key-object : key platform object ≡ 5944
unfolding key
key-object = refl

one_item-IsAccounted : IsAccounted one_item
unfolding OrdMap.total
one_item-IsAccounted = record {
  sorted = (omega arith, tt);
  used = (omega arith, tt);
  balanced = refl;
  small = omega arith;
}

remove_oldest_item-newest_example :
    (k : ℕ) × (it : CacheItem) × (OrdMap.find k one_item.items ≡ some it)
    × ((j : ℕ) (other : CacheItem)
        → OrdMap.find j one_item.items ≡ some other
        → other.last_used ≤ it.last_used)
    × (remove_oldest_item one_item ≡ record one_item {
      available_size = one_item.available_size + size_of it;
      items = OrdMap.erase k one_item.items;
    })
remove_oldest_item-newest_example =
    remove_oldest_item-newest one_item one_item-IsAccounted (omega arith)

add-remove_stuck_example :
    let c' = (remove_cache_item platform one_item object).1 in
    (add_cache_item platform c' large item ≡ stop out_of_fuel)
    × ((fuel : ℕ) → evict fuel c' large.size ≡ stop out_of_fuel)
unfolding key OrdMap.find
add-remove_stuck_example =
    add-remove_stuck platform one_item object large item one_item-IsAccounted refl refl
      (omega arith) (omega arith)

get-remove_example :
    let r = remove_cache_item platform one_item object in
    (lookup platform r.1 object 9 ≡ (
      if key platform object == key platform object
      then none
      else lookup platform one_item object 9))
    × ((r.0 ≡ 0) ↔ (lookup platform one_item object 9 ≡ none))
get-remove_example = get-remove platform one_item object object 9 (omega arith, tt)

-- An address of another size and place, with the hash of `object`.
abbrev collides : GlobalAddress
collides = record { size = 64; ptr = 8; id = 3000 }

get-add_collision_example :
    Returns
      (add_cache_item platform empty_cache object item)
      λ c'. lookup platform c' collides 9 ≡ some (record item { last_used = 9 })
unfolding key OrdMap.find
get-add_collision_example =
    get-add_collision platform empty_cache object collides item 9 tt (omega arith) (omega arith)
      refl refl

add_cache_item-Within_example :
    Above 0 one_item.items
    × ((k : ℕ) (found : CacheItem)
        → OrdMap.find k one_item.items ≡ some found
        → (OrdMap.find k empty_cache.items ≡ some found)
          ⊎ ((k ≡ key platform object) × (found ≡ item)))
unfolding add_cache_item key OrdMap.insert
add_cache_item-Within_example =
    add_cache_item-Within platform empty_cache one_item object item tt refl

abbrev large_item : CacheItem
large_item = record { global_address = large; value = 6; created = 2; last_used = 2 }

-- The second addition evicts the first item, the third one stands beside the space lost before.
abbrev calls : List Call
calls = adds item ∷ gets object 9 ∷ adds large_item ∷ adds item ∷ removes object ∷ alters item ∷ []

abbrev size_at : ℕ → ℕ
size_at k = if k == 5944 then 8 else 510

abbrev after_calls : Cache
after_calls = record { max_size = 512; available_size = 496; items = (5944, item) ∷ []; state = 0 }

perform_all-IsBounded_example : IsBounded size_at after_calls
unfolding perform_all key new add_cache_item evict remove_oldest_item get_cache_item
    remove_cache_item alter_cache_item OrdMap.find OrdMap.insert OrdMap.erase OrdMap.assign scan
perform_all-IsBounded_example =
    perform_all-IsBounded size_at platform calls after_calls
      (refl, (refl, (refl, (refl, (refl, (refl, tt)))))) refl
