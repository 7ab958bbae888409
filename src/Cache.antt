-- ===== src/Cache.antt =====
-- src/Cache.h and src/Cache.cpp: the cache of remote data that a node keeps.
-- Times are ticks since the epoch, so the epoch itself is 0 and no time lies before it.
pub mod Lookup
pub mod Eviction
pub mod Accounting
pub mod Leak
pub mod Contents
pub mod Bounds
use cachecoherence.Base.{
  ℕ, zero, suc, ◌+◌, ◌-◌, ◌%◌, ◌^◌, List, [], ◌∷◌, Option, none, some, ltb, leb, if◌then◌else◌,
  length, Run, ok, stop, terminated, out_of_fuel, ◌>>=◌,
}
use cachecoherence.Base.OrdMap
use cachecoherence.Base.OrdMap.{OrdMap}
use cachecoherence.Defs.Address.{GlobalAddress, Platform, sendable, hash}
use cachecoherence.Defs.Message.{unshared}

pub record CacheItem : Type 0 where
  pub global_address : GlobalAddress
  pub value : ℕ
  pub created : ℕ
  pub last_used : ℕ

pub record Cache : Type 0 where
  pub max_size : ℕ
  pub available_size : ℕ
  pub items : OrdMap CacheItem
  pub state : ℕ

-- `Cache::Cache`
unfoldable pub new : Cache
new = record { max_size = 512; available_size = 512; items = []; state = unshared }

-- The key under which the cache files an address.
unfoldable pub key : Platform → GlobalAddress → ℕ
unfolding hash sendable
key p ga = hash p (sendable ga 0)

-- `std::pair<uint64_t, CacheItem> latest;`, value-initialised
abbrev pub blank : ℕ × CacheItem
blank = (
  0,
  record {
    global_address = record { size = 0; ptr = 0; id = 0 };
    value = 0;
    created = 0;
    last_used = 0;
  },
)

-- the loop of `removeOldestItem` over the items, with `latest` as it stands
unfoldable pub scan : ℕ × CacheItem → OrdMap CacheItem → ℕ × CacheItem
scan latest [] = latest
scan latest (it ∷ rest) = scan (if ltb latest.1.last_used it.1.last_used then it else latest) rest

-- `Cache::removeOldestItem`
unfoldable pub remove_oldest_item : Cache → Cache
remove_oldest_item c =
    let latest = scan blank c.items in
    record c {
      available_size = (c.available_size + latest.1.global_address.size) % 2 ^ 64;
      items = OrdMap.erase latest.0 c.items;
    }

-- `while (availablesize < gaddr.size) removeOldestItem();`
unfoldable pub evict : ℕ → Cache → ℕ → Run Cache
evict zero c size = stop out_of_fuel
evict (suc fuel) c size =
    let rest = evict fuel (remove_oldest_item c) size in
    if ltb c.available_size size then rest else ok c

-- `Cache::addCacheItem`. One round for each item, and one for the last test, are enough fuel: a
-- loop that needs more does not end.
unfoldable pub add_cache_item : Platform → Cache → GlobalAddress → CacheItem → Run Cache
unfolding key
add_cache_item p c gaddr item =
    if leb gaddr.size c.max_size
    then (if leb gaddr.size c.available_size
        then ok (record c {
          items = OrdMap.insert (key p gaddr) item c.items;
          available_size = c.available_size - gaddr.size;
        })
        else evict (suc (length c.items)) c gaddr.size)
    else stop terminated

-- `Cache::removeCacheItem`, with the number of the items erased
unfoldable pub remove_cache_item : Platform → Cache → GlobalAddress → ℕ × Cache
unfolding key
remove_cache_item p c ga =
    let k = key p ga in
    (
      elim (OrdMap.find k c.items) [ none ↦ 0 | some _ ↦ 1 ],
      record c { items = OrdMap.erase k c.items },
    )

-- `Cache::getCacheItem` at the time `now`; `none` is the null pointer. A hit is a pointer into the
-- map, whose item has its time of use set.
unfoldable pub get_cache_item : Platform → Cache → GlobalAddress → ℕ → Option CacheItem × Cache
unfolding key
get_cache_item p c ga now =
    let k = key p ga in
    elim (OrdMap.find k c.items) [
      | none ↦ (none, c)
      | some it ↦
          let it' : CacheItem = record it { last_used = now } in
          (some it', record c { items = OrdMap.assign k it' c.items })
    ]

-- `Cache::alterCacheItem`
unfoldable pub alter_cache_item : Platform → Cache → CacheItem → GlobalAddress → Run Cache
unfolding key add_cache_item
alter_cache_item p c ci ga =
    let k = key p ga in
    elim (OrdMap.find k c.items) [
      | some _ ↦ ok (record c { items = OrdMap.assign k ci c.items })
      | none ↦ add_cache_item p c ga ci
    ]
