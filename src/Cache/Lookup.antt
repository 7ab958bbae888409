-- ===== src/Cache/Lookup.antt =====
-- What the cache gives back: hits, misses, updates and removals.
use cachecoherence.Base.{
  ℕ, ◌-◌, ◌≤◌, ◌≡◌, Option, none, some, arith, ◌==◌, if◌then◌else◌, Returns, le→leb, ==_iff, ◌⊎◌,
  ◌↔◌, inl, inr, Option-cases,
}
use cachecoherence.Base.OrdMap
use cachecoherence.Base.OrdMap.{OrdMap, Above}
use cachecoherence.Defs.Address.{GlobalAddress, Platform}
use cachecoherence.Cache.{
  CacheItem, Cache, key, add_cache_item, remove_cache_item, get_cache_item, alter_cache_item,
}

-- What `getCacheItem` returns.
abbrev pub lookup : Platform → Cache → GlobalAddress → ℕ → Option CacheItem
lookup p c g now = (get_cache_item p c g now).0

pub lookup-find :
    (p : Platform) (c : Cache) (g : GlobalAddress) (now : ℕ) (it : CacheItem)
    → OrdMap.find (key p g) c.items ≡ some it
    → lookup p c g now ≡ some (record it { last_used = now })
unfolding get_cache_item
lookup-find p c g now it e = ground arith

-- After a removal the address misses, and with it each address of the same hash; every other address
-- reads as before. The number returned says whether there was an item.
pub get-remove :
    (p : Platform) (c : Cache) (g h : GlobalAddress) (now : ℕ)
    → Above 0 c.items
    → let (n, c') = remove_cache_item p c g in
      (lookup p c' h now ≡ (if key p g == key p h then none else lookup p c h now))
      × ((n ≡ 0) ↔ (lookup p c g now ≡ none))
unfolding remove_cache_item get_cache_item
get-remove p c g h now a =
    (ground (arith, OrdMap.find-erase (key p h) (key p g) 0 c.items a), ground arith)

-- A hit returns the data as it is stored, sets the time of use, and changes no other address.
pub get-get :
    (p : Platform) (c : Cache) (g h : GlobalAddress) (now later : ℕ)
    → let (r, c') = get_cache_item p c g now in
      (lookup p c' h later ≡ lookup p c h later) × (c'.available_size ≡ c.available_size)
unfolding get_cache_item
get-get p c g h now later = elim (Option-cases (OrdMap.find (key p g) c.items)) [
  | inl e ↦ ground arith
  | inr (it, e) ↦ ground (
    arith,
    OrdMap.find-assign (key p h) (key p g) (record it { last_used = now }) c.items,
    ==_iff (key p g) (key p h),
  )
]

-- An update of an address that is cached, or that fits, is what the next read returns.
pub get-alter :
    (p : Platform) (c : Cache) (g : GlobalAddress) (ci old : CacheItem) (now : ℕ)
    → Above 0 c.items
    → g.size ≤ c.max_size
    → (OrdMap.find (key p g) c.items ≡ some old) ⊎ (g.size ≤ c.available_size)
    → Returns
        (alter_cache_item p c ci g)
        λ c'. lookup p c' g now ≡ some (record ci { last_used = now })
unfolding alter_cache_item get_cache_item
get-alter p c g ci old now a fits room = elim (Option-cases (OrdMap.find (key p g) c.items)) [
  | inr (it, e) ↦ (
    record c { items = OrdMap.assign (key p g) ci c.items },
    ground arith,
    ground (arith, OrdMap.find-assign (key p g) (key p g) ci c.items),
  )
  | inl e ↦
      let free : g.size ≤ c.available_size = ground arith in
      (
        record c {
          items = OrdMap.insert (key p g) ci c.items;
          available_size = c.available_size - g.size;
        },
        ground arith,
        ground (arith, OrdMap.find-insert (key p g) (key p g) ci 0 c.items a),
      )
]

-- The cache tells addresses apart by their hash alone: an item that was added for `g` is what a read
-- of any `h` with the same hash returns.
pub get-add_collision :
    (p : Platform) (c : Cache) (g h : GlobalAddress) (it : CacheItem) (now : ℕ)
    → Above 0 c.items
    → g.size ≤ c.max_size
    → g.size ≤ c.available_size
    → OrdMap.find (key p g) c.items ≡ none
    → key p g ≡ key p h
    → Returns
        (add_cache_item p c g it)
        λ c'. lookup p c' h now ≡ some (record it { last_used = now })
unfolding add_cache_item get_cache_item
get-add_collision p c g h it now a fits room fresh same = (
  record c {
    items = OrdMap.insert (key p g) it c.items;
    available_size = c.available_size - g.size;
  },
  rw (le→leb g.size c.max_size fits, le→leb g.size c.available_size room),
  ground (arith, OrdMap.find-insert (key p h) (key p g) it 0 c.items a),
)
