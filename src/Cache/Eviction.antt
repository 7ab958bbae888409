-- ===== src/Cache/Eviction.antt =====
-- `removeOldestItem` and the loop that calls it.
use cachecoherence.Base.{
  ℕ, zero, suc, ◌+◌, ◌%◌, ◌^◌, ◌≤◌, ◌<◌, ◌≡◌, refl, ap, [], ◌∷◌, none, some, inl, inr, ◌⊎◌, arith,
  ltb, if◌then◌else◌, All, Option-cases, Bool-cases, stop, out_of_fuel, length, true,
}
use cachecoherence.Base.OrdMap
use cachecoherence.Base.OrdMap.{OrdMap, Above}
use cachecoherence.Cache.{CacheItem, Cache, blank, scan, remove_oldest_item, evict}
use cachecoherence.Cache.Accounting.{size_of, WasUsed, IsAccounted}

abbrev time_of : ℕ × CacheItem → ℕ
time_of e = e.1.last_used

abbrev NotAfter : ℕ → ℕ × CacheItem → Type 0
NotAfter t e = time_of e ≤ t

NotAfter-trans : {t u : ℕ} (m : OrdMap CacheItem) → t ≤ u → All (NotAfter t) m → All (NotAfter u) m
NotAfter-trans [] h a = tt
NotAfter-trans (e ∷ m) h a = (omega arith, NotAfter-trans m h a.1)

scan-ge : (l : ℕ × CacheItem) (m : OrdMap CacheItem) → time_of l ≤ time_of (scan l m)
unfolding scan
scan-ge l [] = omega arith
scan-ge l (e ∷ m) = ground (arith, scan-ge (if ltb l.1.last_used e.1.last_used then e else l) m)

scan-NotAfter : (l : ℕ × CacheItem) (m : OrdMap CacheItem) → All (NotAfter (time_of (scan l m))) m
unfolding scan
scan-NotAfter l [] = tt
scan-NotAfter l (e ∷ m) =
    let l' : ℕ × CacheItem = if ltb l.1.last_used e.1.last_used then e else l in
    (ground (arith, scan-ge l' m), scan-NotAfter l' m)

-- The scan ends with the entry that it began with, or with one of the map.
pub scan-find :
    (l : ℕ × CacheItem) (n : ℕ) (m : OrdMap CacheItem)
    → Above n m
    → (scan l m ≡ l) ⊎ (OrdMap.find (scan l m).0 m ≡ some (scan l m).1)
unfolding scan OrdMap.find
scan-find l n [] a = inl refl
scan-find l n (e ∷ m) a =
    let l' : ℕ × CacheItem = if ltb l.1.last_used e.1.last_used then e else l in
    ground (arith, scan-find l' (suc e.0) m a.1, OrdMap.find_below (scan l' m).0 (suc e.0) m)

find-NotAfter :
    (t k : ℕ) (m : OrdMap CacheItem) (v : CacheItem)
    → All (NotAfter t) m
    → OrdMap.find k m ≡ some v
    → v.last_used ≤ t
unfolding OrdMap.find
find-NotAfter t k [] v a e = absurd (ground arith)
find-NotAfter t k ((j, w) ∷ m) v a e = ground (arith, find-NotAfter t k m v a.1)

-- In a map whose items have all been used, the scan ends with an entry of the map.
scan-blank :
    (m : OrdMap CacheItem)
    → Above 0 m
    → All WasUsed m
    → 0 < length m
    → OrdMap.find (scan blank m).0 m ≡ some (scan blank m).1
scan-blank [] a u h = absurd (omega arith)
scan-blank (e ∷ m) a u h = elim (scan-find blank 0 (e ∷ m) a) [
  | inr found ↦ found
  | inl same ↦
      let newest = scan-NotAfter blank (e ∷ m) in
      let stays : time_of (scan blank (e ∷ m)) ≡ 0 = ap time_of same in
      absurd (omega (arith, u.0, newest.0, stays))
]

-- One call of `removeOldestItem` on a cache whose books are balanced and that has items, each used
-- since the epoch, removes the item that was used last, and adds its size to the free space.
pub remove_oldest_item-newest :
    (c : Cache)
    → IsAccounted c
    → 0 < length c.items
    → (k : ℕ) × (it : CacheItem) × (OrdMap.find k c.items ≡ some it)
      × ((j : ℕ) (other : CacheItem)
          → OrdMap.find j c.items ≡ some other
          → other.last_used ≤ it.last_used)
      × (remove_oldest_item c ≡ record c {
        available_size = c.available_size + size_of it;
        items = OrdMap.erase k c.items;
      })
unfolding remove_oldest_item
remove_oldest_item-newest c a h =
    let latest = scan blank c.items in
    let found = scan-blank c.items a.sorted a.used h in
    let fits : (c.available_size + size_of latest.1) % 2 ^ 64
        ≡ c.available_size + size_of latest.1 =
      omega
        (arith, OrdMap.total-erase size_of latest.0 c.items latest.1 found, a.balanced, a.small) in
    (
      latest.0,
      latest.1,
      found,
      λ j other e. find-NotAfter _ j c.items other (scan-NotAfter blank c.items) e,
      rw fits,
    )

-- What the loop leaves: room for `size`, books in order, and no key that was not there.
abbrev Evicts : Cache → ℕ → Cache → Type 0
Evicts c size c' =
    IsAccounted c'
    × (size ≤ c'.available_size)
    × ((j : ℕ) → OrdMap.find j c.items ≡ none → OrdMap.find j c'.items ≡ none)

erase-shorter :
    (k : ℕ) (m : OrdMap CacheItem)
    → (OrdMap.erase k m ≡ m) ⊎ (length (OrdMap.erase k m) + 1 ≡ length m)
erase-shorter k m = elim (Option-cases (OrdMap.find k m)) [
  | inl e ↦ inl (OrdMap.erase_absent k m e)
  | inr (v, e) ↦ inr (OrdMap.length-erase k m v e)
]

-- A round of the loop that removes nothing changes nothing.
remove_oldest_item-fixed :
    (c : Cache)
    → Above 0 c.items
    → c.available_size < 2 ^ 64
    → (remove_oldest_item c ≡ c) ⊎ (length (remove_oldest_item c).items + 1 ≡ length c.items)
unfolding remove_oldest_item
remove_oldest_item-fixed c a small = elim (scan-find blank 0 c.items a) [
  | inr found ↦ inr (OrdMap.length-erase _ c.items _ found)
  | inl same ↦
      let keeps : (c.available_size + 0) % 2 ^ 64 ≡ c.available_size = omega arith in
      elim (erase-shorter 0 c.items) [
        | inl e ↦ inl (rw (same, keeps, e) refl)
        | inr e ↦ inr (rw same e)
      ]
]

remove_oldest_item-small : (c : Cache) → (remove_oldest_item c).available_size < 2 ^ 64
unfolding remove_oldest_item
remove_oldest_item-small c = omega arith

remove_oldest_item-Above : (c : Cache) → Above 0 c.items → Above 0 (remove_oldest_item c).items
unfolding remove_oldest_item
remove_oldest_item-Above c a = OrdMap.erase-Above _ 0 c.items a

evict-fixed :
    (fuel : ℕ) (c : Cache) (size : ℕ)
    → ltb c.available_size size ≡ true
    → remove_oldest_item c ≡ c
    → evict fuel c size ≡ stop out_of_fuel
unfolding evict
evict-fixed zero c size more e = refl
evict-fixed (suc fuel) c size more e = rw (more, e) (evict-fixed fuel c size more e)

-- A loop that one round for each item and one more do not end, no number of rounds ends.
pub evict-never :
    (rounds : ℕ) (c : Cache) (size : ℕ)
    → Above 0 c.items
    → c.available_size < 2 ^ 64
    → length c.items < rounds
    → evict rounds c size ≡ stop out_of_fuel
    → (fuel : ℕ) → evict fuel c size ≡ stop out_of_fuel
unfolding evict
evict-never zero c size a small lt e fuel = absurd (omega arith)
evict-never (suc rounds) c size a small lt e zero = refl
evict-never (suc rounds) c size a small lt e (suc fuel) =
    elim (Bool-cases (ltb c.available_size size)) [
      | inr done ↦ absurd (ground arith)
      | inl more ↦ elim (remove_oldest_item-fixed c a small) [
        | inl same ↦ evict-fixed (suc fuel) c size more same
        | inr shorter ↦ rw more (
            evict-never rounds (remove_oldest_item c) size (remove_oldest_item-Above c a)
              (remove_oldest_item-small c) (omega arith) (rw more at e) fuel)
      ]
    ]
