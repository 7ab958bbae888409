-- ===== src/Cluster/Register.antt =====
-- What the nodes together promise: an object that only its owner writes is one register.
use cachecoherence.Base.{
  ℕ, ◌≤◌, ◌≡◌, ◌≢◌, refl, ap, sym, ◌∙◌, none, some, true, List, [], ◌∷◌, ◌++◌, arith, ok, inl, inr,
  Option-cases,
}
use cachecoherence.Base.OrdMap
use cachecoherence.Defs.Address.{GlobalAddress, Platform}
use cachecoherence.Defs.Message.{Data, SaveData}
use cachecoherence.Node.State.{Input, Node}
use cachecoherence.Node.Memory.{is_empty}
use cachecoherence.Node.Writing.{write_local}
use cachecoherence.Node.Dialling.{answering}
use cachecoherence.Node.Coherence.{to_tell, stored_locally}
use cachecoherence.Cluster.Calls.{write_local-tells}
use cachecoherence.Cluster.World.{
  World, calls_made, invalidations, Event, reads, writes, Step, reads_cached, reads_owner,
  writes_owner, History, start, next,
}
use cachecoherence.Cluster.Coherence.{
  IsCoherent, copy, perform_read-HitBy, cached-IsCoherent, owner-IsCoherent,
}
use cachecoherence.Cluster.Invalidation.{IsDropped, Drops-IsDropped}

-- The register: a read returns its value, a write sets it.
abbrev pub after : ℕ → Event → ℕ
after v (reads i x) = v
after v (writes x) = x

abbrev pub Accepts : ℕ → Event → Type 0
Accepts v (reads i x) = x ≡ v
Accepts v (writes x) = Unit

-- Its value after events, and that it accepts them, one after the other.
abbrev pub value_after : ℕ → List Event → ℕ
value_after v [] = v
value_after v (e ∷ events) = value_after (after v e) events

abbrev pub AcceptsAll : ℕ → List Event → Type 0
AcceptsAll v [] = Unit
AcceptsAll v (e ∷ events) = Accepts v e × AcceptsAll (after v e) events

value_after-append :
    (v : ℕ) (events : List Event) (e : Event)
    → value_after v (events ++ e ∷ []) ≡ after (value_after v events) e
value_after-append v [] e = refl
value_after-append v (x ∷ events) e = value_after-append (after v x) events e

AcceptsAll-append :
    (v : ℕ) (events : List Event) (e : Event)
    → AcceptsAll v events
    → Accepts (value_after v events) e
    → AcceptsAll v (events ++ e ∷ [])
AcceptsAll-append v [] e all last = (last, tt)
AcceptsAll-append v (x ∷ events) e (first, all) last =
    (first, AcceptsAll-append (after v x) events e all last)

to_tell-all : (d : SaveData) → d.iscached ≤ 2 → to_tell d ≡ d.sharer_nodes
unfolding to_tell
to_tell-all d valid = ground (arith, empty_only d.sharer_nodes)
  where
    empty_only : (nodes : List ℕ) → is_empty nodes ≡ true → nodes ≡ []
    empty_only [] e = refl
    empty_only (n ∷ nodes) e = absurd (ground arith)

module _ (p : Platform) (g : GlobalAddress) (v : ℕ) (w : World) (c : IsCoherent p g v w) where
  no_copy :
      (nodes : List ℕ) (clients' : ℕ → Node) (answers : List Input)
      → nodes ≡ to_tell c.object
      → IsDropped p g nodes w.clients answers clients'
      → (i : ℕ) → copy p g (clients' i) ≡ none
  no_copy nodes clients' answers all dropped i =
      let told : c.object.sharer_nodes ≡ nodes = sym (to_tell-all c.object c.valid) ∙ sym all in
      elim (Option-cases (copy p g (w.clients i))) [
        | inl absent ↦ dropped.gone i (inr absent)
        | inr (it, held) ↦ dropped.gone i (inl (rw (← told) (c.copies i it held).1))
      ]

  -- A write of the owner leaves no copy behind.
  wrote-IsCoherent :
      (d : Data) (nodes : List ℕ) (answers : List Input) (ga : GlobalAddress) (owner' : Node)
      (clients' : ℕ → Node)
      → d.ga ≡ g
      → write_local d (record w.owner { script = answers; log = [] }) ≡ ok (ga, owner')
      → calls_made [] owner'.log ≡ invalidations g w.owner.id nodes
      → IsDropped p g nodes w.clients answers clients'
      → owner'.script ≡ []
      → IsCoherent p g d.value (record { owner = owner'; clients = clients' })
  wrote-IsCoherent d nodes answers ga owner' clients' same runs said dropped done =
      let stored' : OrdMap.find d.ga.ptr w.owner.memory ≡ some c.object =
        ap (λ (a : GlobalAddress). OrdMap.find a.ptr w.owner.memory) same ∙ c.stored in
      let runs' : write_local d (record w.owner { script = answering dropped.removed []; log = [] })
          ≡ ok (ga, owner') =
        ap (λ xs. write_local d (record w.owner { script = xs; log = [] })) (sym dropped.answered)
        ∙ runs in
      let (all, memory, id) =
        write_local-tells w.owner owner' d c.object dropped.removed nodes ga stored' runs' done
          (said ∙ ap (λ a. invalidations a w.owner.id nodes) (sym same)) in
      let ptr : d.ga.ptr ≡ g.ptr = ap (λ (a : GlobalAddress). a.ptr) same in
      record {
        here = c.here ∙ sym id;
        object = stored_locally w.owner d;
        stored = ground (
          arith,
          memory,
          ptr,
          c.stored,
          OrdMap.find-assign g.ptr d.ga.ptr (stored_locally w.owner d) w.owner.memory,
        );
        current = refl;
        valid = omega arith;
        ids = λ i. dropped.ids i ∙ c.ids i;
        sorted = dropped.sorted;
        copies = λ i it e. absurd (ground (arith, e, no_copy nodes clients' answers all dropped i));
      }

-- Each step is one that the register accepts, and keeps the copies equal to it.
pub Step-Accepts :
    {p : Platform} {g : GlobalAddress} {w w' : World} {e : Event}
    → Step p g w e w'
    → (v : ℕ) → IsCoherent p g v w
    → Accepts v e × IsCoherent p g (after v e) w'
Step-Accepts {p} {g} {w} (reads_cached i value got n' n'' away runs returns) v c =
    let remote : g.id ≢ (w.clients i).id = λ e. away (sym (c.ids i) ∙ sym e) in
    let (it, hit) = perform_read-HitBy p g (w.clients i) n' n'' i value got remote runs returns in
    cached-IsCoherent p g v w c i value it n'' hit
Step-Accepts {p} {g} {w} (reads_owner i value fuel got n' n'' owner' away session returns) v c =
    owner-IsCoherent p g v w c i value fuel got n' n'' owner' away session returns
Step-Accepts {p} {g} {w} (writes_owner d nodes answers ga owner' clients' same runs said drops done)
      v c =
    (
      tt,
      wrote-IsCoherent p g v w c d nodes answers ga owner' clients' same runs said
          (Drops-IsDropped drops c.sorted) done,
    )

-- From a world in which every copy has the value of the object and is known to its owner, any history
-- of reads by any nodes, from their caches or from the owner, and of writes by the owner is one of a
-- single register: each read returns the value written last; and every copy has the value of the
-- object and is known at its end. In a write the owner's calls are those of its log, and the nodes
-- that it calls serve what it sends.
pub History-AcceptsAll :
    {p : Platform} {g : GlobalAddress} {w w' : World} {events : List Event}
    → History p g w events w'
    → (v : ℕ) → IsCoherent p g v w
    → AcceptsAll v events × IsCoherent p g (value_after v events) w'
History-AcceptsAll start v c = (tt, c)
History-AcceptsAll (next events e before step) v c =
    let (all, c') = History-AcceptsAll before v c in
    let (last, c'') = Step-Accepts step (value_after v events) c' in
    (AcceptsAll-append v events e all last, rw (value_after-append v events e) c'')
