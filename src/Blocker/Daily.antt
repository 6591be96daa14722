-- ===== src/Blocker/Daily.antt =====
-- The limit on ids: what an attempt that passes the limit on attempts does to the set of ids.
use kinbridge_server.Prelude.{ℕ, ◌<◌, ◌≡◌, String, [], ◌∷◌, some, arith, if◌then◌else◌, string_eq}
use kinbridge_server.Dict.{lookup, contains}
use kinbridge_server.Time.{elapsed_secs}
use kinbridge_server.Blocker.{
  IpBlock, IpBlockMap, check_ids, check_entry, check_ip_blocker, day_seconds,
}
use kinbridge_server.Blocker.Burst.{lookup-check_self}

-- After a day without a counted attempt the set is emptied, and the id of the attempt that finds it
-- so enters the new set only if it was not in the old one: a returning id is forgotten.
pub daily_reset :
    (now : ℕ) (ip id : String) (lock : IpBlockMap) (b : IpBlock)
    → lookup ip lock ≡ some b
    → day_seconds < elapsed_secs now b.ids_tm
    → day_seconds < elapsed_secs now b.count_tm
    → lookup ip (check_ip_blocker now ip id lock).1
      ≡ some (record {
        count = 1;
        count_tm = now;
        ids = if contains id b.ids then [] else id ∷ [];
        ids_tm = now;
      })
unfolding check_entry check_ids
daily_reset now ip id lock b e h k = rw (lookup-check_self now ip id lock b e).0 (ground arith)
