-- ===== src/Cache/Contents.antt =====
-- What a cache can hold after an addition that ends, whatever the state it starts in.
use cachecoherence.Base.{
  ℕ, zero, suc, ◌≡◌, refl, none, some, arith, ok, ltb, leb, ◌==◌, length, Bool-cases, Option-cases,
  inl, inr, ◌⊎◌,
}
use cachecoherence.Base.OrdMap
use cachecoherence.Base.OrdMap.{Above}
use cachecoherence.Defs.Address.{GlobalAddress, Platform}
use cachecoherence.Cache.{
  Cache, CacheItem, key, blank, scan, remove_oldest_item, evict, add_cache_item, alter_cache_item,
}

-- The items of the one are among those of the other, and the keys ascend.
abbrev pub Within : Cache → Cache → Type 0
Within c' c =
    Above 0 c'.items
    × ((k : ℕ) → OrdMap.find k c'.items ≡ none ⊎ (OrdMap.find k c'.items ≡ OrdMap.find k c.items))

remove_oldest_item-Within : (c : Cache) → Above 0 c.items → Within (remove_oldest_item c) c
unfolding remove_oldest_item
remove_oldest_item-Within c a =
    let k = (scan blank c.items).0 in
    (
      OrdMap.erase-Above k 0 c.items a,
      λ j. elim (Bool-cases (k == j)) [
        | inl here ↦ inl (ground (arith, OrdMap.find-erase j k 0 c.items a))
        | inr there ↦ inr (ground (arith, OrdMap.find-erase j k 0 c.items a))
      ],
    )

Within-trans : (c c' c'' : Cache) → Within c'' c' → Within c' c → Within c'' c
Within-trans c c' c'' (sorted, second) (_, first) = (sorted, λ k. ground (arith, second k, first k))

evict-Within :
    (fuel : ℕ) (c c' : Cache) (size : ℕ) → Above 0 c.items → evict fuel c size ≡ ok c' → Within c' c
unfolding evict
evict-Within zero c c' size a runs = absurd (ground arith)
evict-Within (suc fuel) c c' size a runs = elim (Bool-cases (ltb c.available_size size)) [
  | inl more ↦
      let first = remove_oldest_item-Within c a in
      let on : evict fuel (remove_oldest_item c) size ≡ ok c' = ground arith in
      Within-trans c (remove_oldest_item c) c'
        (evict-Within fuel (remove_oldest_item c) c' size first.0 on) first
  | inr done ↦ let same : c' ≡ c = ground arith in rw same (a, λ k. inr refl)
]

-- An addition that ends leaves an item as it was, or takes it out; only the key of the address can
-- have the new item.
pub add_cache_item-Within :
    (p : Platform) (c c' : Cache) (g : GlobalAddress) (it : CacheItem)
    → Above 0 c.items
    → add_cache_item p c g it ≡ ok c'
    → Above 0 c'.items
      × ((k : ℕ) (found : CacheItem)
          → OrdMap.find k c'.items ≡ some found
          → (OrdMap.find k c.items ≡ some found) ⊎ ((k ≡ key p g) × (found ≡ it)))
unfolding add_cache_item
add_cache_item-Within p c c' g it a runs = elim (Bool-cases (leb g.size c.max_size)) [
  | inr large ↦ absurd (ground arith)
  | inl fits ↦ elim (Bool-cases (leb g.size c.available_size)) [
    | inl room ↦
        let items : c'.items ≡ OrdMap.insert (key p g) it c.items = ground arith in
        rw items (
          OrdMap.insert-Above (key p g) it 0 c.items (omega arith) a,
          λ k found e. ground (arith, OrdMap.find-insert k (key p g) it 0 c.items a),
        )
    | inr full ↦
        let on : evict (suc (length c.items)) c g.size ≡ ok c' = ground arith in
        let (sorted, within) = evict-Within (suc (length c.items)) c c' g.size a on in
        (sorted, λ k found e. inl (ground (arith, within k)))
  ]
]

-- A cache stays in the order of its keys when an item is altered.
pub alter_cache_item-Above :
    (p : Platform) (c c' : Cache) (it : CacheItem) (g : GlobalAddress)
    → Above 0 c.items
    → alter_cache_item p c it g ≡ ok c'
    → Above 0 c'.items
unfolding alter_cache_item
alter_cache_item-Above p c c' it g a runs =
    let k = key p g in
    elim (Option-cases (OrdMap.find k c.items)) [
      | inl absent ↦
          let adds : add_cache_item p c g it ≡ ok c' = ground (arith, absent) in
          (add_cache_item-Within p c c' g it a adds).0
      | inr (old, held) ↦
          let items : c'.items ≡ OrdMap.assign k it c.items = ground (arith, held) in
          rw items (OrdMap.assign-Above k it 0 c.items a)
    ]
