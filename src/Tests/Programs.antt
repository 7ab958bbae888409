-- ===== src/Tests/Programs.antt =====
-- The example program on a node without data, and the theorems at it.
use cachecoherence.Base.{◌≡◌, [], ◌∷◌, arith, refl, inl, Returns}
use cachecoherence.Defs.Address.{SendGlobalAddr}
use cachecoherence.Node.State.{address, address_head}
use cachecoherence.Node.Reading.{session}
use cachecoherence.Node.Keeping.{Rests}
use cachecoherence.Cluster.World.{calls_made}
use cachecoherence.Main.Remotely.{remote_session}
use cachecoherence.Main.Written.{requests, remote_session-reads}
use cachecoherence.Base.OrdMap
use cachecoherence.Tests.Data.{platform, keeper, object}

abbrev answer : SendGlobalAddr
answer = record { size = 8; ptr = 64; id = 3000; src_id = 2000 }

keeper-Rests : Rests object keeper
unfolding OrdMap.find
keeper-Rests = record {
  is_keeper = refl;
  away = omega arith;
  locks = tt;
  idle = λ j. inl refl;
  sorted = tt;
  fits = omega arith;
}

remote_session-reads_example :
    Returns
      (remote_session platform 0 77 (record keeper {
        script =
            session
              (address_head object)
              (session (address answer) (session (address answer) (session (address answer) [])));
      }))
      λ r.
        (r.0 ≡ 77 ∷ 77 ∷ 1337 ∷ 1337 ∷ [])
        × (r.1.script ≡ [])
        × Rests object r.1
        × (r.1.memory ≡ keeper.memory)
        × (calls_made [] r.1.log ≡ requests 2000 77 object)
remote_session-reads_example =
    remote_session-reads platform 0 77 keeper object answer answer answer [] keeper-Rests
      (omega arith) refl
