-- ===== src/App/Interface.antt =====
-- What app/HashTable.h takes from its surroundings: the operations of a node (src/Node.h) as it calls
-- them, with what it relies on, and the conversion of its values to words of memory.
use cachecoherence.Base.{ℕ, ◌≡◌, ◌≢◌, Option, none, some, Run, Returns}
use cachecoherence.Defs.Address.{GlobalAddress}
use cachecoherence.Defs.Message.{Data}

-- The values `V` of the table: `sizeof(V)`, the cast to a word, and the cast back.
pub record Values (V : Type 0) : Type 0 where
  pub size : ℕ
  pub to_word : V → ℕ
  pub of_word : ℕ → V
  pub of_word-to_word : (v : V) → of_word (to_word v) ≡ v

-- The shared memory: `content` is the word that a read of an allocated address returns, `IsSound`
-- what its operations keep.
pub record Memory : Type 1 where
  pub State : Type 0
  pub IsSound : State → Type 0
  pub content : State → GlobalAddress → Option ℕ
  pub malloc : ℕ → State → Run (GlobalAddress × State)
  pub write : Data → State → Run (GlobalAddress × State)
  pub read : GlobalAddress → State → Run (ℕ × State)
  pub free : GlobalAddress → State → Run (GlobalAddress × State)
  -- An allocation gives an address that was free, and leaves the others as they are.
  pub malloc_lem :
      (size : ℕ) (s : State)
      → IsSound s
      → Returns (malloc size s) λ r.
        IsSound r.1
        × (content s r.0 ≡ none)
        × ((w : ℕ) × (content r.1 r.0 ≡ some w))
        × ((h : GlobalAddress) (w : ℕ) → content s h ≡ some w → content r.1 h ≡ some w)
        × ((h : GlobalAddress) (w : ℕ) → content s h ≡ some w → h.ptr ≢ r.0.ptr)
  -- A write sets the word at its own pointer.
  pub write_lem :
      (d : Data) (s : State) (w : ℕ)
      → IsSound s
      → content s d.ga ≡ some w
      → Returns (write d s) λ r.
        IsSound r.1
        × (content r.1 d.ga ≡ some d.value)
        × ((h : GlobalAddress) → h.ptr ≢ d.ga.ptr → content r.1 h ≡ content s h)
  -- A read returns the word and changes none.
  pub read_lem :
      (g : GlobalAddress) (s : State) (w : ℕ)
      → IsSound s
      → content s g ≡ some w
      → Returns
          (read g s)
          λ r. IsSound r.1 × (r.0 ≡ w) × ((h : GlobalAddress) → content r.1 h ≡ content s h)
  -- What is freed is no longer allocated, and the rest stays.
  pub free_lem :
      (g : GlobalAddress) (s : State) (w : ℕ)
      → IsSound s
      → content s g ≡ some w
      → Returns (free g s) λ r.
        IsSound r.1
        × (content r.1 g ≡ none)
        × ((h : GlobalAddress) → h.ptr ≢ g.ptr → content r.1 h ≡ content s h)
