-- ===== src/Cache/Accounting.antt =====
-- The book-keeping of the free space, and what each operation does to it.
use cachecoherence.Base.{
  ℕ, ◌+◌, ◌-◌, ◌≤◌, ◌<◌, ◌≡◌, refl, ap, [], ◌∷◌, none, some, arith, All, ok, Returns, ◌^◌, le→leb,
}
use cachecoherence.Base.OrdMap
use cachecoherence.Base.OrdMap.{OrdMap, Above}
use cachecoherence.Defs.Address.{GlobalAddress, Platform}
use cachecoherence.Cache.{CacheItem, Cache, key, new, add_cache_item}

abbrev pub size_of : CacheItem → ℕ
size_of it = it.global_address.size

abbrev pub WasUsed : ℕ × CacheItem → Type 0
WasUsed e = 0 < e.1.last_used

-- Free space and the sizes of the items make up the whole, the keys ascend, and each item has been
-- used after the epoch.
pub record IsAccounted (c : Cache) : Type 0 where
  pub sorted : Above 0 c.items
  pub used : All WasUsed c.items
  pub balanced : c.available_size + OrdMap.total size_of c.items ≡ c.max_size
  pub small : c.max_size < 2 ^ 64

pub erase-WasUsed : (k : ℕ) (m : OrdMap CacheItem) → All WasUsed m → All WasUsed (OrdMap.erase k m)
unfolding OrdMap.erase
erase-WasUsed k [] a = tt
erase-WasUsed k ((j, w) ∷ m) a = ground (arith, erase-WasUsed k m a.1)

pub insert-WasUsed :
    (k : ℕ) (v : CacheItem) (m : OrdMap CacheItem)
    → 0 < v.last_used
    → All WasUsed m
    → All WasUsed (OrdMap.insert k v m)
unfolding OrdMap.insert
insert-WasUsed k v [] h a = (h, tt)
insert-WasUsed k v ((j, w) ∷ m) h a = ground (arith, insert-WasUsed k v m h a.1)

pub find-WasUsed :
    (k : ℕ) (m : OrdMap CacheItem) (v : CacheItem)
    → All WasUsed m
    → OrdMap.find k m ≡ some v
    → 0 < v.last_used
unfolding OrdMap.find
find-WasUsed k [] v a e = absurd (ground arith)
find-WasUsed k ((j, w) ∷ m) v a e = ground (arith, find-WasUsed k m v a.1)

pub new-IsAccounted : IsAccounted new
unfolding new OrdMap.total
new-IsAccounted = record { sorted = tt; used = tt; balanced = refl; small = omega arith }

-- The state after an item that fits has been added.
abbrev pub with_item : Platform → Cache → GlobalAddress → CacheItem → Cache
with_item p c g it = record c {
  items = OrdMap.insert (key p g) it c.items;
  available_size = c.available_size - g.size;
}

pub add_cache_item_fits :
    (p : Platform) (c : Cache) (g : GlobalAddress) (it : CacheItem)
    → g.size ≤ c.max_size
    → g.size ≤ c.available_size
    → add_cache_item p c g it ≡ ok (with_item p c g it)
unfolding add_cache_item
add_cache_item_fits p c g it fits room =
    rw (le→leb g.size c.max_size fits, le→leb g.size c.available_size room)

-- Adding an item of a new key that fits keeps the books.
pub add_fits-IsAccounted :
    (p : Platform) (c : Cache) (g : GlobalAddress) (it : CacheItem)
    → IsAccounted c
    → 0 < it.last_used
    → it.global_address ≡ g
    → g.size ≤ c.available_size
    → OrdMap.find (key p g) c.items ≡ none
    → Returns
        (add_cache_item p c g it)
        λ c'. IsAccounted c' × (OrdMap.find (key p g) c'.items ≡ some it)
add_fits-IsAccounted p c g it a u e fits fresh =
    let size_eq : size_of it ≡ g.size = ap (λ x. x.size) e in
    let k = key p g in
    (
      with_item p c g it,
      add_cache_item_fits p c g it (omega arith) fits,
      (
        record {
          sorted = OrdMap.insert-Above k it 0 c.items (omega arith) a.sorted;
          used = insert-WasUsed k it c.items u a.used;
          balanced = omega (arith, OrdMap.total-insert size_of k it c.items fresh, a.balanced);
          small = a.small;
        },
        ground (arith, OrdMap.find-insert k k it 0 c.items a.sorted),
      ),
    )
