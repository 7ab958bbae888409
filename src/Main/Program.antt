-- ===== src/Main/Program.antt =====
-- main.cpp: the whole program. The table's allocations come from the allocator of App/OnNode, with
-- what its memory reads as, and
-- `events` is what the client waits for from line 45 on.
use cachecoherence.Base.{
  ℕ, ◌≡◌, ◌<◌, ◌≤◌, [], none, List, [], ◌++◌, ◌==◌, if◌then◌else◌, Run, ok, ◌>>=◌,
}
use cachecoherence.Base.OrdMap
use cachecoherence.Defs.Address.{Platform}
use cachecoherence.Defs.Message.{SaveData}
use cachecoherence.Cache.{Cache}
use cachecoherence.Node.State.{Input, Node}
use cachecoherence.Node.Serving.{connect_and_receive}
use cachecoherence.App.Interface.{Memory}
use cachecoherence.App.HashTable.{clear}
use cachecoherence.App.OnNode.{node_memory}
use cachecoherence.Main.Locally.{bools, table_session}
use cachecoherence.Main.Remotely.{remote_session, server_loop}

module _ (c : Cache) (p : Platform) (fuel : ℕ) (allocator : Node → ℕ)
    (unused : (n : Node) → OrdMap.find (allocator n) n.memory ≡ none)
    (positive : (n : Node) → 0 < allocator n) (fresh : Node → SaveData)
    (fresh_unshared : (n : Node) → ((fresh n).iscached ≤ 2) × ((fresh n).sharer_nodes ≡ [])) where
  abbrev pub on_node : Memory
  on_node =
      node_memory c (connect_and_receive p fuel) p allocator unused positive fresh fresh_unshared

  -- the client, with the word `d` for the pointer to its text, and the destructor of the table
  unfoldable pub client : ℕ → List Input → Node → Run (List ℕ × Node)
  unfolding table_session remote_session clear
  client d events n = do
    (shown, t, n₁) ← table_session on_node (record n { id = 2000 })
    (more, n₂) ← remote_session p fuel d (record n₁ { script = events })
    (_, n₃) ← clear bools on_node t n₂
    ok (shown ++ more, n₃)

  -- `main`, with the number that is read, the connections that a server is followed for, and the
  -- node as its constructor leaves it
  unfoldable pub main : ℕ → ℕ → ℕ → List Input → Node → Run (List ℕ × Node)
  unfolding server_loop client
  main choice connections d events n =
      if choice == 0
      then (do
        (_, n') ← server_loop p fuel connections (record n { id = 3000; script = events })
        ok ([], n'))
      else if choice == 1
      then client d events n
      else ok ([], n)
