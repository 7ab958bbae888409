-- ===== src/App/Histories.antt =====
-- Any sequence of calls of the table, against the abstract table.
use cachecoherence.Base.{ℕ, ◌≡◌, refl, ap, Option, List, [], ◌∷◌, Run, ok, ◌>>=◌, Returns}
use cachecoherence.App.Interface.{Values, Memory}
use cachecoherence.App.HashTable.{
  Table, Reference, dangling, insert, erase, get, index, count, size, clear,
}
use cachecoherence.App.Methods.{decoded}
use cachecoherence.App.Clearing.{clear-Simulates}
use cachecoherence.App.Subscript.{Reaches, index-Simulates}
use cachecoherence.App.Simulation.{
  Stacks, nothing, Simulates, put, taken, has_value, insert-Simulates, erase-Simulates,
  get-Simulates, count-Simulates,
}

-- A call of the table, and what it returns.
pub data Call (V : Type 0) : Type 0 where
  insertion : ℕ → V → Call V
  erasure : ℕ → Call V
  look_up : ℕ → Call V
  subscript : ℕ → Call V
  containment : ℕ → Call V
  elements : Call V
  clearing : Call V

pub data Answer (V : Type 0) : Type 0 where
  done : Answer V
  found : Option V → Answer V
  referred : Reference → Answer V
  number : ℕ → Answer V

only : (r : Reference) → r ≡ dangling
only dangling = refl

module _ {V : Type 0} (values : Values V) (memory : Memory) where
  open memory use {State}

  unfoldable pub perform : Call V → Table → State → Run (Answer V × Table × State)
  unfolding insert erase get index count size clear
  perform (insertion k x) t s = do (t', s') ← insert values memory t k x s; ok (done, t', s')
  perform (erasure k) t s = do (t', s') ← erase values memory t k s; ok (done, t', s')
  perform (look_up k) t s = do (r, s') ← get values memory t k s; ok (found r, t, s')
  perform (subscript k) t s = do (x, t', s') ← index values memory t k s; ok (referred x, t', s')
  perform (containment k) t s = do (n, s') ← count values memory t k s; ok (number n, t, s')
  perform elements t s = ok (number (size t), t, s)
  perform clearing t s = do (t', s') ← clear values memory t s; ok (done, t', s')

  unfoldable pub perform_all : List (Call V) → Table → State → Run (List (Answer V) × Table × State)
  unfolding perform
  perform_all [] t s = ok ([], t, s)
  perform_all (c ∷ calls) t s = do
    (x, t', s') ← perform c t s
    (xs, t'', s'') ← perform_all calls t' s'
    ok (x ∷ xs, t'', s'')

  -- What a call promises, of the abstract table before and after it.
  abbrev pub Promises : Stacks → Call V → Answer V → Stacks → Type 0
  Promises a (insertion k x) r a' = (r ≡ done) × (a' ≡ put values memory a k (values.to_word x))
  Promises a (erasure k) r a' = (r ≡ done) × (a' ≡ taken values memory a k)
  Promises a (look_up k) r a' = (r ≡ found (decoded values memory (a.under k))) × (a' ≡ a)
  Promises a (subscript k) r a' = (r ≡ referred dangling) × Reaches values memory a k a'
  Promises a (containment k) r a' =
      (r ≡ number (has_value values memory (decoded values memory (a.under k)))) × (a' ≡ a)
  Promises a elements r a' = (r ≡ number a.entries) × (a' ≡ a)
  Promises a clearing r a' = (r ≡ done) × (a' ≡ nothing)

  -- The answers to a sequence of calls are those of the abstract table.
  pub data Follows : Stacks → List (Call V) → List (Answer V) → Stacks → Type 0 where
    start : (a : Stacks) → Follows a [] [] a
    next :
        (a b a' : Stacks) (c : Call V) (x : Answer V) (calls : List (Call V)) (xs : List (Answer V))
        → Promises a c x b
        → Follows b calls xs a'
        → Follows a (c ∷ calls) (x ∷ xs) a'

  perform-Promises :
      (c : Call V) (a : Stacks) (t : Table) (s : State)
      → Simulates values memory a t s
      → Returns
          (perform c t s)
          λ r. (a' : Stacks) × Promises a c r.0 a' × Simulates values memory a' r.1 r.2
  unfolding perform
  perform-Promises (insertion k x) a t s h =
      let (r, runs, h') = insert-Simulates values memory a t s k x h in
      ((done, r.0, r.1), rw runs, (_, (refl, refl), h'))
  perform-Promises (erasure k) a t s h =
      let (r, runs, h') = erase-Simulates values memory a t s k h in
      ((done, r.0, r.1), rw runs, (_, (refl, refl), h'))
  perform-Promises (look_up k) a t s h =
      let (r, runs, (same, h')) = get-Simulates values memory a t s k h in
      ((found r.0, t, r.1), rw runs, (a, (ap found same, refl), h'))
  perform-Promises (subscript k) a t s h =
      let (r, runs, (a', reaches, h')) = index-Simulates values memory a t s k h in
      ((referred r.0, r.1, r.2), rw runs, (a', (ap referred (only r.0), reaches), h'))
  perform-Promises (containment k) a t s h =
      let (r, runs, (same, h')) = count-Simulates values memory a t s k h in
      ((number r.0, t, r.1), rw runs, (a, (ap number same, refl), h'))
  perform-Promises elements a t s h =
      ((number (size t), t, s), refl, (a, (ap number h.counted, refl), h))
  perform-Promises clearing a t s h =
      let (r, runs, h') = clear-Simulates values memory a t s h in
      ((done, r.0, r.1), rw runs, (nothing, (refl, refl), h'))

  -- A sequence of insertions, erasures, look-ups, subscripts whose references nobody reads, tests of
  -- containment, questions for the number of elements and clearings runs to its end on a table that
  -- stands for an abstract one, and returns what the abstract table returns; a subscript returns a
  -- reference to a variable that is gone, and enters its key with some word if it is not there. The
  -- table left stands for what the abstract table has become.
  pub perform_all-Follows :
      (calls : List (Call V)) (a : Stacks) (t : Table) (s : State)
      → Simulates values memory a t s
      → Returns
          (perform_all calls t s)
          λ r. (a' : Stacks) × Follows a calls r.0 a' × Simulates values memory a' r.1 r.2
  unfolding perform_all
  perform_all-Follows [] a t s h = (([], t, s), refl, (a, start a, h))
  perform_all-Follows (c ∷ calls) a t s h =
      let ((x, t', s'), runs, (b, promised, h')) = perform-Promises c a t s h in
      let ((xs, t'', s''), run, (a', follows, h'')) = perform_all-Follows calls b t' s' h' in
      ((x ∷ xs, t'', s''), rw (runs, run), (a', next a b a' c x calls xs promised follows, h''))
