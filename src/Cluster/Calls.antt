-- ===== src/Cluster/Calls.antt =====
-- Whom a node calls: the calls that stand in its log after a round of invalidations.
use cachecoherence.Base.{
  ℕ, ◌+◌, ◌≡◌, refl, ap, ◌∙◌, sym, some, List, [], ◌∷◌, ◌++◌, arith, ok, append_assoc, append-nil,
}
use cachecoherence.Base.OrdMap
use cachecoherence.Defs.Address.{GlobalAddress}
use cachecoherence.Defs.Message.{Data, SaveData}
use cachecoherence.Node.State.{Output, Node}
use cachecoherence.Node.Writing.{write_local}
use cachecoherence.Node.Dialling.{answering, told, told_one}
use cachecoherence.Node.Coherence.{to_tell, stored_locally, write_local-told, write_local-each}
use cachecoherence.Cluster.World.{calls_made, invalidation, invalidations}

pub calls_made-told :
    (id h : ℕ) (g : GlobalAddress) (nodes : List ℕ) (log : List Output)
    → calls_made [] (told id h g nodes log) ≡ calls_made [] log ++ invalidations g id nodes
calls_made-told id h g [] log = sym (append-nil (calls_made [] log))
calls_made-told id h g (to ∷ nodes) log =
    calls_made-told id (h + 1 + 1) g nodes (told_one id h g to log)
    ∙ append_assoc (calls_made [] log) ((to, invalidation g id) ∷ []) (invalidations g id nodes)

invalidations-same :
    (g : GlobalAddress) (id : ℕ) (nodes others : List ℕ)
    → invalidations g id nodes ≡ invalidations g id others
    → nodes ≡ others
invalidations-same g id [] [] e = refl
invalidations-same g id [] (j ∷ others) e = absurd (ground (arith, e))
invalidations-same g id (i ∷ nodes) [] e = absurd (ground (arith, e))
invalidations-same g id (i ∷ nodes) (j ∷ others) e =
    ground (arith, e, invalidations-same g id nodes others)

-- A local write that ends, on answers that it uses up, has called the nodes that it has to tell.
pub write_local-tells :
    (n n' : Node) (d : Data) (old : SaveData) (removed nodes : List ℕ) (ga : GlobalAddress)
    → OrdMap.find d.ga.ptr n.memory ≡ some old
    → write_local d (record n { script = answering removed []; log = [] }) ≡ ok (ga, n')
    → n'.script ≡ []
    → calls_made [] n'.log ≡ invalidations d.ga n.id nodes
    → (nodes ≡ to_tell old)
      × (n'.memory ≡ OrdMap.assign d.ga.ptr (stored_locally n d) n.memory)
      × (n'.id ≡ n.id)
write_local-tells n n' d old removed nodes ga stored runs done said =
    let quiet : Node = record n { log = [] } in
    let each = write_local-each quiet n' d old removed ga stored runs done in
    let known = write_local-told quiet d old removed [] stored each in
    let (log, memory, id) : (n'.log ≡ told n.id n.handles d.ga (to_tell old) [])
        × (n'.memory ≡ OrdMap.assign d.ga.ptr (stored_locally n d) n.memory)
        × (n'.id ≡ n.id) =
      ground (arith, known, runs) in
    (
      invalidations-same d.ga n.id nodes (to_tell old) (
          sym said ∙ ap (calls_made []) log ∙ calls_made-told n.id n.handles d.ga (to_tell old) []),
      memory,
      id,
    )
