-- ===== src/Rdma/Layout.antt =====
-- Structs of integers in memory, as bytes: each field is its bytes, the lowest first, one field after
-- the other.
use cachecoherence.Base.{
  ℕ, zero, suc, ◌+◌, ◌*◌, ◌/◌, ◌%◌, ◌<◌, ◌≡◌, refl, ap, List, [], ◌∷◌, ◌++◌, length, length-append,
  append_assoc, take, drop, arith,
}

abbrev pub le : ℕ → ℕ → List ℕ
le zero v = []
le (suc w) v = v % 256 ∷ le w (v / 256)

abbrev pub of_le : List ℕ → ℕ
of_le [] = 0
of_le (b ∷ bytes) = b + 256 * of_le bytes

-- The number of values of a field of so many bytes.
abbrev pub limit : ℕ → ℕ
limit zero = 1
limit (suc w) = 256 * limit w

abbrev pub encode : List ℕ → List ℕ → List ℕ
encode [] values = []
encode (w ∷ widths) [] = []
encode (w ∷ widths) (v ∷ values) = le w v ++ encode widths values

abbrev pub decode : List ℕ → List ℕ → List ℕ
decode [] bytes = []
decode (w ∷ widths) bytes = of_le (take w bytes) ∷ decode widths (drop w bytes)

-- The values fit into the fields, one each.
abbrev pub Fit : List ℕ → List ℕ → Type 0
Fit [] [] = Unit
Fit (w ∷ widths) (v ∷ values) = (v < limit w) × Fit widths values
Fit _ _ = ⊥

of_le-le : (w v : ℕ) → v < limit w → of_le (le w v) ≡ v
of_le-le zero v fits = omega arith
of_le-le (suc w) v fits = omega (arith, of_le-le w (v / 256) (omega arith))

take-le : (w v : ℕ) (rest : List ℕ) → take w (le w v ++ rest) ≡ le w v
take-le zero v rest = refl
take-le (suc w) v rest = ap (λ l. v % 256 ∷ l) (take-le w (v / 256) rest)

drop-le : (w v : ℕ) (rest : List ℕ) → drop w (le w v ++ rest) ≡ rest
drop-le zero v rest = refl
drop-le (suc w) v rest = drop-le w (v / 256) rest

pub length-le : (w v : ℕ) → length (le w v) ≡ w
length-le zero v = refl
length-le (suc w) v = ap suc (length-le w (v / 256))

abbrev pub total : List ℕ → ℕ
total [] = 0
total (w ∷ widths) = w + total widths

pub length-encode :
    (widths values : List ℕ) → Fit widths values → length (encode widths values) ≡ total widths
length-encode [] [] fit = refl
length-encode (w ∷ widths) (v ∷ values) (fits, fit) = omega (
  arith,
  length-append (le w v) (encode widths values),
  length-le w v,
  length-encode widths values fit,
)
length-encode [] (v ∷ values) fit = absurd fit
length-encode (w ∷ widths) [] fit = absurd fit

pub decode-encode :
    (widths values rest : List ℕ)
    → Fit widths values
    → decode widths (encode widths values ++ rest) ≡ values
decode-encode [] [] rest fit = refl
decode-encode (w ∷ widths) (v ∷ values) rest (fits, fit) =
    let tail = encode widths values ++ rest in
    ground (
      arith,
      append_assoc (le w v) (encode widths values) rest,
      take-le w v tail,
      drop-le w v tail,
      of_le-le w v fits,
      decode-encode widths values rest fit,
    )
decode-encode [] (v ∷ values) rest fit = absurd fit
decode-encode (w ∷ widths) [] rest fit = absurd fit
