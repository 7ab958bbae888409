-- ===== src/Cluster/Asking.antt =====
-- What a read that comes to its end has met: a copy in the cache, or an answer of the owner.
use cachecoherence.Base.{ℕ, ◌≡◌, ◌≢◌, none, Bool, true, List, [], ◌∷◌, arith, ok}
use cachecoherence.Base.OrdMap
use cachecoherence.Defs.Address.{GlobalAddress, Platform, sendable}
use cachecoherence.Defs.Message.{unlocked, ImmData, imm_code}
use cachecoherence.Cache.{key, add_cache_item}
use cachecoherence.Node.State.{
  address, address_head, content, lock, flag, word, Input, connects, accepts, arrives, allocates,
  Node,
}
use cachecoherence.Node.Memory.{Ref, received, perform_read}
use cachecoherence.Node.Reading.{read_item}
use cachecoherence.Cluster.World.{sent}

-- What arrives in a session that a read has called for, and what the reader has sent and kept.
abbrev pub Asked : Platform → Node → GlobalAddress → ℕ → List Input → Ref → Node → Type 0
Asked p n g src xs got n' =
    (w : ℕ) × (imm : ℕ) × (imm' : ℕ) × (b : Bool) × (xs
      ≡ arrives imm (word w) ∷ arrives imm' (flag b) ∷ [])
    × (got ≡ received w)
    × (add_cache_item p n.cache g (read_item p n g w) ≡ ok n'.cache)
    × (n'.id ≡ n.id)
    × (sent n'.log
        ≡ arrives (imm_code ImmData.read) (address (sendable g src))
          ∷ arrives (imm_code ImmData.reset) (lock (record { id = n.id; state = unlocked }))
          ∷ [])

module _ (p : Platform) (n : Node) (g : GlobalAddress) (remote : g.id ≢ n.id) (src : ℕ)
    (miss : OrdMap.find (key p g) n.cache.items ≡ none) where
  -- A read that misses ends only on a word and the answer to its farewell.
  pub perform_read-Asked :
      (xs : List Input) (got : Ref) (n' : Node)
      → perform_read p g src (record n { script = connects true ∷ xs; log = [] }) ≡ ok (got, n')
      → n'.script ≡ []
      → Asked p n g src xs got n'
  unfolding perform_read sendable imm_code
  perform_read-Asked [] got n' runs ends = absurd (ground arith)
  perform_read-Asked (connects b ∷ xs) got n' runs ends = absurd (ground arith)
  perform_read-Asked (accepts ∷ xs) got n' runs ends = absurd (ground arith)
  perform_read-Asked (allocates r ∷ xs) got n' runs ends = absurd (ground arith)
  perform_read-Asked (arrives imm (address a) ∷ xs) got n' runs ends = absurd (ground arith)
  perform_read-Asked (arrives imm (address_head a) ∷ xs) got n' runs ends = absurd (ground arith)
  perform_read-Asked (arrives imm (content d) ∷ xs) got n' runs ends = absurd (ground arith)
  perform_read-Asked (arrives imm (lock l) ∷ xs) got n' runs ends = absurd (ground arith)
  perform_read-Asked (arrives imm (flag b) ∷ xs) got n' runs ends = absurd (ground arith)
  perform_read-Asked (arrives imm (word w) ∷ []) got n' runs ends = absurd (ground arith)
  perform_read-Asked (arrives imm (word w) ∷ connects b ∷ xs) got n' runs ends =
      absurd (ground arith)
  perform_read-Asked (arrives imm (word w) ∷ accepts ∷ xs) got n' runs ends = absurd (ground arith)
  perform_read-Asked (arrives imm (word w) ∷ allocates r ∷ xs) got n' runs ends =
      absurd (ground arith)
  perform_read-Asked (arrives imm (word w) ∷ arrives imm' (address a) ∷ xs) got n' runs ends =
      absurd (ground arith)
  perform_read-Asked (arrives imm (word w) ∷ arrives imm' (address_head a) ∷ xs) got n' runs ends =
      absurd (ground arith)
  perform_read-Asked (arrives imm (word w) ∷ arrives imm' (content d) ∷ xs) got n' runs ends =
      absurd (ground arith)
  perform_read-Asked (arrives imm (word w) ∷ arrives imm' (lock l) ∷ xs) got n' runs ends =
      absurd (ground arith)
  perform_read-Asked (arrives imm (word w) ∷ arrives imm' (word v) ∷ xs) got n' runs ends =
      absurd (ground arith)
  perform_read-Asked (arrives imm (word w) ∷ arrives imm' (flag b) ∷ xs) got n' runs ends =
      (w, imm, imm', b, ground arith, ground arith, ground arith, ground arith, ground arith)
