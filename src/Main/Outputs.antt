-- ===== src/Main/Outputs.antt =====
-- What becomes of the example program's client.
use cachecoherence.Base.OrdMap
use cachecoherence.Node.State.{Node}
use cachecoherence.App.HashTable
