-- ===== src/App/HashTable.antt =====
-- app/HashTable.h: the table. A chain of `Elem` is the list of its elements; the memory that the
-- elements point to is that of the node.
use cachecoherence.Base.{
  stop, undefined, ℕ, ◌+◌, ◌-◌, ◌*◌, ◌/◌, ◌%◌, ◌^◌, bit_xor, Option, none, some, Bool, List, [],
  ◌∷◌, Run, ok, ◌>>=◌, ◌==◌, if◌then◌else◌, length, get_or, set, replicate,
}
use cachecoherence.Defs.Address.{GlobalAddress}
use cachecoherence.Defs.Message.{Data}
use cachecoherence.App.Interface.{Values, Memory}

-- `HashTable::hash`, on 32-bit words
unfoldable pub hash : ℕ → ℕ
hash key =
    let a = bit_xor (bit_xor key 61) (key / 2 ^ 16) in
    let b = (a + (a * 2 ^ 3) % 2 ^ 32) % 2 ^ 32 in
    let c = bit_xor b (b / 2 ^ 4) in let d = (c * 0x27d4eb2d) % 2 ^ 32 in bit_xor d (d / 2 ^ 15)

-- `HashTable::Elem`, without its link
pub record Elem : Type 0 where
  pub key : ℕ
  pub gaddr : GlobalAddress

-- The fields of `HashTable`.
pub record Table : Type 0 where
  pub storage : List (List Elem)
  pub amount_elements : ℕ

-- the constructor
unfoldable pub new : Table
new = record { storage = replicate 64 []; amount_elements = 0 }

-- `HashTable::hashBucket`
unfoldable pub hash_bucket : Table → ℕ → ℕ
hash_bucket t key = hash key % length t.storage

abbrev pub bucket : Table → ℕ → List Elem
bucket t b = get_or t.storage b []

-- The walk of `get` and `operator[]` along a chain: the first element with the key.
unfoldable pub find : ℕ → List Elem → Option Elem
find key [] = none
find key (e ∷ chain) = if e.key == key then some e else find key chain

-- The chain that `erase` leaves: the first element with the key is taken out.
unfoldable pub unlink : ℕ → List Elem → List Elem
unlink key [] = []
unlink key (e ∷ chain) = if e.key == key then chain else e ∷ unlink key chain

-- `storage[b] = new Elem({key, gadd, storage[b]}); ++amountElements;`
unfoldable pub push : Table → ℕ → GlobalAddress → Table
unfolding hash_bucket
push t key gadd =
    let b = hash_bucket t key in
    record {
      storage = set t.storage b (record { key = key; gaddr = gadd } ∷ bucket t b);
      amount_elements = (t.amount_elements + 1) % 2 ^ 64;
    }

-- The table that `erase` leaves where the key is there; the counter is unsigned.
unfoldable pub pop : Table → ℕ → Table
unfolding hash_bucket
pop t key =
    let b = hash_bucket t key in
    record {
      storage = set t.storage b (unlink key (bucket t b));
      amount_elements = (t.amount_elements + 2 ^ 64 - 1) % 2 ^ 64;
    }

-- What `operator[]` returns: a reference to a variable of the call, which is gone when it is read.
pub data Reference : Type 0 where
  dangling : Reference

unfoldable pub deref {ℓ} : {V : Type ℓ} → Reference → Run V
deref dangling = stop undefined

module _ {V : Type 0} (values : Values V) (memory : Memory) where
  open memory use {State, malloc, write, read, free}

  -- `HashTable::insert`
  unfoldable pub insert : Table → ℕ → V → State → Run (Table × State)
  unfolding push
  insert t key value s = do
    (gadd, s₁) ← malloc values.size s
    let d : Data = record { size = values.size; value = values.to_word value; ga = gadd }
    (_, s₂) ← write d s₁
    ok (push t key gadd, s₂)

  -- `HashTable::erase`
  unfoldable pub erase : Table → ℕ → State → Run (Table × State)
  unfolding hash_bucket find pop
  erase t key s = elim (find key (bucket t (hash_bucket t key))) [
    | none ↦ ok (t, s)
    | some e ↦ do (_, s') ← free e.gaddr s; ok (pop t key, s')
  ]

  -- `HashTable::get`
  unfoldable pub get : Table → ℕ → State → Run (Option V × State)
  unfolding hash_bucket find
  get t key s = elim (find key (bucket t (hash_bucket t key))) [
    | none ↦ ok (none, s)
    | some e ↦ do (w, s') ← read e.gaddr s; ok (some (values.of_word w), s')
  ]

  -- `HashTable::operator[]`
  unfoldable pub index : Table → ℕ → State → Run (Reference × Table × State)
  unfolding hash_bucket find push
  index t key s = elim (find key (bucket t (hash_bucket t key))) [
    | some e ↦ do (_, s') ← read e.gaddr s; ok (dangling, t, s')
    | none ↦ do
      (gadd, s₁) ← malloc values.size s
      (_, s₂) ← read gadd s₁
      ok (dangling, push t key gadd, s₂)
  ]

  -- `HashTable::count`
  unfoldable pub count : Table → ℕ → State → Run (ℕ × State)
  unfolding get
  count t key s = do (r, s') ← get t key s; ok (elim r [ none ↦ 0 | some _ ↦ 1 ], s')

  -- the inner loop of `HashTable::clear`
  unfoldable pub clear_chain : List Elem → State → Run State
  clear_chain [] s = ok s
  clear_chain (e ∷ chain) s = free e.gaddr s >>= λ r. clear_chain chain r.1

  -- the outer loop of `HashTable::clear`
  unfoldable pub clear_all : List (List Elem) → State → Run (List (List Elem) × State)
  unfolding clear_chain
  clear_all [] s = ok ([], s)
  clear_all (b ∷ storage) s = do
    s' ← clear_chain b s
    (cleared, s'') ← clear_all storage s'
    ok ([] ∷ cleared, s'')

  -- `HashTable::clear`, also the destructor
  unfoldable pub clear : Table → State → Run (Table × State)
  unfolding clear_all
  clear t s = do
    (cleared, s') ← clear_all t.storage s
    ok (record { storage = cleared; amount_elements = 0 }, s')

-- `HashTable::size` and `HashTable::empty`
unfoldable pub size : Table → ℕ
size t = t.amount_elements

unfoldable pub empty : Table → Bool
unfolding size
empty t = size t == 0
