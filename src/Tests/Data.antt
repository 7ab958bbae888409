-- ===== src/Tests/Data.antt =====
-- The data of the tests: a server with id 3000 that owns one object, and a client with id 1000.
use cachecoherence.Base.{ℕ, ◌+◌, some, [], ◌∷◌, stop, blocked}
use cachecoherence.Defs.Address.{GlobalAddress, Platform}
use cachecoherence.Defs.Message.{Data, SaveData}
use cachecoherence.Cache.{Cache, CacheItem, key}
use cachecoherence.Node.State.{Node, Connection, M}

-- Integers hash to themselves, as in libstdc++, and the clock ticks at each reading.
abbrev pub platform : Platform
platform = record { std_hash = λ x. x; clock = λ t. t + 1 }

abbrev pub object : GlobalAddress
object = record { size = 8; ptr = 64; id = 3000 }

abbrev pub large : GlobalAddress
large = record { size = 510; ptr = 128; id = 3000 }

abbrev pub item : CacheItem
item = record { global_address = object; value = 5; created = 1; last_used = 1 }

abbrev pub empty_cache : Cache
empty_cache = record { max_size = 512; available_size = 512; items = []; state = 0 }

-- A cache that holds `item` alone.
abbrev pub one_item : Cache
one_item = record {
  max_size = 512;
  available_size = 504;
  items = (key platform object, item) ∷ [];
  state = 0;
}

abbrev pub saved : SaveData
saved = record { value = 5; iscached = 0; owner_node = 3000; sharer_nodes = [] }

abbrev pub saved_shared : SaveData
saved_shared = record {
  value = 5;
  iscached = 1;
  owner_node = 3000;
  sharer_nodes = 1000 ∷ 4000 ∷ [];
}

abbrev pub server_with : SaveData → Node
server_with d = record {
  id = 3000;
  locks = [];
  cache = empty_cache;
  memory = (64, d) ∷ [];
  ticks = 0;
  handles = 10;
  script = [];
  log = [];
}

abbrev pub client : Node
client = record {
  id = 1000;
  locks = [];
  cache = empty_cache;
  memory = [];
  ticks = 0;
  handles = 0;
  script = [];
  log = [];
}

abbrev pub keeper : Node
keeper = record client { id = 2000 }

-- A lock node that owns the object.
abbrev pub keeper_with : SaveData → Node
keeper_with d = record client { id = 2000; memory = (64, d) ∷ [] }

abbrev pub own_object : GlobalAddress
own_object = record { size = 8; ptr = 64; id = 2000 }

abbrev pub connection : Connection
connection = record { qpn = 7; socket = some 9 }

abbrev pub other_connection : Connection
other_connection = record { qpn = 8; socket = some 11 }

abbrev pub datum : Data
datum = record { size = 8; value = 77; ga = object }

abbrev pub own_datum : Data
own_datum = record { size = 8; value = 77; ga = own_object }

-- A node that serves nobody while it waits.
abbrev pub no_service : ℕ → M (Unit {0})
no_service port n = stop blocked
