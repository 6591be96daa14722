-- ===== src/Blocker.antt =====
-- src/rendezvous_server.rs, `check_ip_blocker`, and src/peer.rs, the IP_BLOCKER table: how often one
-- IP address may register, and how many ids.
pub mod Bounds
pub mod Burst
pub mod Daily
pub mod Cleanup
pub mod Order
use kinbridge_server.Prelude.{
  ℕ, ◌+◌, ◌%◌, ◌^◌, Bool, true, false, not, String, List, [], Option, none, some, ltb, length,
  if◌then◌else◌, string_eq,
}
use kinbridge_server.Dict.{Dict, lookup, insert, contains, insert_new}
use kinbridge_server.Time.{elapsed_secs}

-- ((u32, Instant), (HashSet<String>, Instant)).
pub record IpBlock : Type 0 where
  pub count : ℕ
  pub count_tm : ℕ
  pub ids : List String
  pub ids_tm : ℕ

abbrev pub IpBlockMap : Type 0
IpBlockMap = Dict String IpBlock

abbrev pub ip_block_dur : ℕ
ip_block_dur = 60

abbrev pub day_seconds : ℕ
day_seconds = 86400

-- The second half: the set of ids that the address has used.
check_ids : ℕ → String → IpBlock → Bool × IpBlock
unfolding elapsed_secs contains insert_new
check_ids now id b =
    let is_new = not (contains id b.ids) in
    let add = λ (ids : List String). if is_new then insert_new id ids else ids in
    if ltb day_seconds (elapsed_secs now b.ids_tm)
    then (true, record b { ids = add []; ids_tm = now })
    else if ltb 300 (length b.ids)
    then (not is_new, b)
    else (true, record b { ids = add b.ids; ids_tm = now })

-- The first half: the number of attempts. A refusal here leaves the entry as it was.
pub check_entry : ℕ → String → IpBlock → Bool × IpBlock
unfolding elapsed_secs check_ids
check_entry now id b =
    if ltb ip_block_dur (elapsed_secs now b.count_tm)
    then check_ids now id (record b { count = 1; count_tm = now })
    else if ltb 30 b.count
    then (false, b)
    else check_ids now id (record b { count = (b.count + 1) % 2 ^ 32; count_tm = now })

pub fresh_entry : ℕ → IpBlock
fresh_entry now = record { count = 0; count_tm = now; ids = []; ids_tm = now }

check_found : ℕ → String → String → IpBlockMap → Option IpBlock → Bool × IpBlockMap
unfolding check_entry fresh_entry insert
check_found now ip id lock (some old) =
    let (allowed, b) = check_entry now id old in (allowed, insert ip b lock)
check_found now ip id lock none = (true, insert ip (fresh_entry now) lock)

-- The answer and the table afterwards.
unfoldable pub check_ip_blocker : ℕ → String → String → IpBlockMap → Bool × IpBlockMap
unfolding check_found lookup
check_ip_blocker now ip id lock = check_found now ip id lock (lookup ip lock)
