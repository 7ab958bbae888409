-- ===== src/Main/Locally.antt =====
-- main.cpp: the client's table, in its own memory. What is printed is the list of the values in it,
-- without the words around them.
use cachecoherence.Base.{
  ℕ, ◌%◌, Option, none, some, Bool, true, false, not, List, [], ◌∷◌, ◌≡◌, refl, ◌==◌, Run, ok,
  ◌>>=◌,
}
use cachecoherence.App.Interface.{Values, Memory}
use cachecoherence.App.HashTable.{Table, insert, erase, get, index, deref, count, size}
use cachecoherence.App.HashTable

-- `HashTable<bool>`: one byte, read from the low byte of the word.
abbrev pub bool_word : Bool → ℕ
bool_word true = 1
bool_word false = 0

abbrev bool_of-bool_word : (b : Bool) → not (bool_word b % 256 == 0) ≡ b
bool_of-bool_word true = refl
bool_of-bool_word false = refl

abbrev pub bools : Values Bool
bools = record {
  size = 1;
  to_word = bool_word;
  of_word = λ w. not (w % 256 == 0);
  of_word-to_word = bool_of-bool_word;
}

-- `value_or("nope")` on an optional `bool`: the pointer converts to `true`.
abbrev pub value_or_nope : Option Bool → Bool
value_or_nope none = true
value_or_nope (some b) = b

abbrev pub has_value : Option Bool → Bool
has_value none = false
has_value (some b) = true

-- The client up to line 42, on the memory that the table is given.
unfoldable pub table_session :
    (memory : Memory) → memory.State → Run (List ℕ × Table × memory.State)
unfolding HashTable.new insert index deref get size erase count
table_session memory s = do
  (t₁, s₁) ← insert bools memory HashTable.new 4 false s
  (ref_4, t₂, s₂) ← index bools memory t₁ 4 s₁
  at_4 ← deref ref_4
  (got_4, s₃) ← get bools memory t₂ 4 s₂
  (t₃, s₄) ← insert bools memory t₂ 5 true s₃
  (t₄, s₅) ← insert bools memory t₃ 6 false s₄
  (ref_5, t₅, s₆) ← index bools memory t₄ 5 s₅
  at_5 ← deref ref_5
  (ref_6, t₆, s₇) ← index bools memory t₅ 6 s₆
  at_6 ← deref ref_6
  (t₇, s₈) ← erase bools memory t₆ 5 s₇
  (count_5, s₉) ← count bools memory t₇ 5 s₈
  (got_5, s₁₀) ← get bools memory t₇ 5 s₉
  ok (
    bool_word at_4
        ∷ bool_word (value_or_nope got_4)
        ∷ size t₂
        ∷ size t₄
        ∷ bool_word at_5
        ∷ bool_word at_6
        ∷ size t₇
        ∷ count_5
        ∷ bool_word (has_value got_5)
        ∷ [],
    t₇,
    s₁₀,
  )
