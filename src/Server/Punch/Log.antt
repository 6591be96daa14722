-- ===== src/Server/Punch/Log.antt =====
-- The record of punch hole requests, PUNCH_REQS: an entry is left out if the same address asked for
-- the same id less than a minute ago. The vector's last entry is the head of the list here, so the
-- scan of `lock.iter().rev().take(30)` is a scan of the first 30.
use kinbridge_server.Prelude.{
  ℕ, zero, suc, Bool, false, ◌&&◌, String, List, [], ◌∷◌, ltb, if◌then◌else◌, ◌==◌, string_eq,
}
use kinbridge_server.Time.{elapsed_secs}
use kinbridge_server.Server.State.{PunchReqEntry}

abbrev pub punch_req_dedupe_sec : ℕ
punch_req_dedupe_sec = 60

-- The loop stops at the first entry for the same pair, within `left` entries.
unfoldable pub is_dup : ℕ → ℕ → String → String → List PunchReqEntry → Bool
unfolding elapsed_secs
is_dup zero now from_ip to_id entries = false
is_dup (suc left) now from_ip to_id [] = false
is_dup (suc left) now from_ip to_id (e ∷ entries) =
    let rest = is_dup left now from_ip to_id entries in
    if e.from_ip == from_ip && e.to_id == to_id
    then ltb (elapsed_secs now e.tm) punch_req_dedupe_sec
    else rest

unfoldable pub record_punch : ℕ → String → String → String → List PunchReqEntry → List PunchReqEntry
unfolding is_dup
record_punch now from_ip to_ip to_id entries =
    if is_dup 30 now from_ip to_id entries
    then entries
    else record { tm = now; from_ip = from_ip; to_ip = to_ip; to_id = to_id } ∷ entries
