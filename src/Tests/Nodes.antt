-- ===== src/Tests/Nodes.antt =====
-- Nodes: sessions run on concrete scripts, and the theorems at concrete inputs.
use cachecoherence.Base.{
  ◌≤◌, ◌<◌, ◌≡◌, refl, none, [], ◌∷◌, arith, inl, ok, stop, threw, true, false, Returns,
}
use cachecoherence.Base.OrdMap
use cachecoherence.Defs.Address
use cachecoherence.Defs.Address.{GlobalAddress}
use cachecoherence.Defs.Message.{exclusive, ImmData, imm_code}
use cachecoherence.Cache.{key, remove_cache_item}
use cachecoherence.Cache.Lookup.{lookup}
use cachecoherence.Node.State.{address, word, connects, arrives, exchanged, posted, reset, closed}
use cachecoherence.Node.Network.{connect_client_socket, broadcast_invalidations}
use cachecoherence.Node.Serving.{receive, must_invalidate}
use cachecoherence.Node.Dialling.{
  failing, new_connection, connected, connect-attempts, told, handles_after, answering,
  broadcast_invalidations-told,
}
use cachecoherence.Node.Sharing.{receive-invalidate}
use cachecoherence.Node.Owning.{written, write_request, receive-write_shared}
use cachecoherence.Node.Reading.{ReadsThrough, perform_read-receive}
use cachecoherence.Node.Locking.{AsksKeeper, set_lock-remote}
use cachecoherence.Node.Coherence.{to_tell, ReadsBack, read-write}
use cachecoherence.Node.Stale.{StaysStale, perform_read-stale}
use cachecoherence.Tests.Data.{
  platform, object, saved, saved_shared, server_with, client, keeper, keeper_with, connection,
  other_connection, datum, one_item, own_datum, no_service,
}

connect-attempts_example :
    (2 < 12
      → connect_client_socket 3000 (record client { script = failing 2 (connects true ∷ []) })
        ≡ ok (new_connection client, connected 2 3000 (record client { script = [] })))
    × (12 ≤ 2 → connect_client_socket 3000 (record client { script = failing 2 [] }) ≡ stop threw)
connect-attempts_example = connect-attempts 2 3000 client []

broadcast_invalidations-told_example :
    broadcast_invalidations
      (1000 ∷ 4000 ∷ [])
      object
      (record (server_with saved) { script = answering (1 ∷ 0 ∷ []) [] })
    ≡ ok (
      tt,
      record (server_with saved) {
        handles = handles_after 10 (1000 ∷ 4000 ∷ []);
        script = [];
        log = told 3000 10 object (1000 ∷ 4000 ∷ []) [];
      },
    )
broadcast_invalidations-told_example =
    broadcast_invalidations-told (1000 ∷ 4000 ∷ []) (1 ∷ 0 ∷ []) object (server_with saved) [] refl

receive-write_shared_example :
    receive no_service platform connection (record (server_with saved_shared) {
      script = write_request datum 1000 ∷ answering (1 ∷ 1 ∷ []) [];
    })
    ≡ ok (
      (false, record connection { socket = none }),
      record (server_with saved_shared) {
        memory = OrdMap.assign 64 (written datum 1000) (server_with saved_shared).memory;
        handles = handles_after 10 (1000 ∷ 4000 ∷ []);
        script = [];
        log = told 3000 10 object (1000 ∷ 4000 ∷ []) (
            closed 9
            ∷ reset 7
            ∷ posted 7 (imm_code ImmData.default) (address (Address.sendable object 1000))
            ∷ posted 7 (imm_code ImmData.invalidate) (address (Address.sendable object 1000))
            ∷ exchanged 9
            ∷ []);
      },
    )
unfolding OrdMap.find must_invalidate
receive-write_shared_example =
    receive-write_shared no_service platform (server_with saved_shared) connection 9 refl datum 1000
      saved_shared refl refl (1 ∷ 1 ∷ []) [] refl refl

perform_read-receive_example :
    ReadsThrough no_service platform client (server_with saved) connection object saved 1000 50 []
unfolding OrdMap.find key
perform_read-receive_example =
    perform_read-receive no_service platform client (server_with saved) connection 9 object saved
      1000 50 [] refl refl refl (omega arith) (omega arith) tt refl (omega arith) (omega arith)

set_lock-remote_example : AsksKeeper no_service platform client keeper connection 3000 exclusive []
set_lock-remote_example =
    set_lock-remote no_service platform client keeper connection 9 3000 exclusive [] refl refl
      (omega arith)

read-write_example :
    ReadsBack no_service platform (keeper_with saved_shared) own_datum saved_shared (1 ∷ 1 ∷ []) []
unfolding OrdMap.find to_tell
read-write_example =
    read-write no_service platform (keeper_with saved_shared) own_datum saved_shared (1 ∷ 1 ∷ []) []
      refl refl tt (inl refl) refl refl

perform_read-stale_example :
    StaysStale no_service platform client
      (record client { id = 4000 })
      (server_with saved)
      connection
      other_connection
      9
      11
      datum
      78
      1000
      4000
      []
unfolding OrdMap.find key must_invalidate
perform_read-stale_example =
    perform_read-stale no_service platform client (record client { id = 4000 }) (server_with saved)
      connection other_connection 9 11 datum 78 1000 4000 saved [] refl refl refl refl refl
      (omega arith) tt refl (omega arith) (omega arith) (omega arith) refl (omega arith)
      (omega arith)

receive-invalidate_example :
    Returns
      (receive no_service platform connection (record client {
        cache = one_item;
        script =
            arrives (imm_code ImmData.invalidate) (address (Address.sendable object 3000)) ∷ [];
      }))
      λ r.
        (r.0 ≡ (true, connection))
        × (lookup platform r.1.cache object 4 ≡ none)
        × (r.1 ≡ record client {
          cache = (remove_cache_item platform one_item object).1;
          log = posted 7 (imm_code ImmData.default) (word 1) ∷ exchanged 9 ∷ [];
        })
unfolding key remove_cache_item OrdMap.find
receive-invalidate_example =
    receive-invalidate no_service platform (record client { cache = one_item }) connection 9 object
      object 3000 4 refl (omega arith, tt)
