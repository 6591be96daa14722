-- ===== src/Server/Register.antt =====
-- RegisterPeer and RegisterPk of `handle_udp`, with `update_addr`.
pub mod Owner
pub mod Rate
pub mod Stranger
pub mod Unstored
pub mod Address
use kinbridge_server.Prelude.{
  ℕ, ◌+◌, ◌%◌, ◌^◌, Bool, true, false, not, ◌&&◌, ◌||◌, String, List, [], ◌∷◌, Option, some, none,
  ltb, eqb, is_empty, if◌then◌else◌, ◌==◌, nat_eq, string_eq, list_eq,
}
use Prim.Native.String.{len}
use kinbridge_server.Prelude.Int.{ltb_ℤ}
use kinbridge_server.Dict.{Dict, lookup, insert}
use kinbridge_server.Net.{SocketAddr, is_loopback, ip_eq}
use kinbridge_server.Time.{elapsed_secs}
use kinbridge_server.Env.{Env, Ctx}
use kinbridge_server.Message.{
  Bytes, RegisterPeer, RegisterPk, register_peer_response, configure_update, uuid_mismatch,
  too_frequent, pk_ok,
}
use kinbridge_server.Blocker.{check_ip_blocker, IpBlockMap}
use kinbridge_server.Peers.{Peer, RegPk, LockPeer, PeerMap, write, get_in_memory, get_or, update_pk}
use kinbridge_server.Server.State.{Local, Shared, IpChange}
use kinbridge_server.Server.Send.{Status, done, failed, send_udp, send_rk_res}

-- (changed, ip_changed), or `none` where the registration is refused with UUID_MISMATCH.
unfoldable pub compare_owner : Peer → RegisterPk → String → Option (Bool × Bool)
compare_owner p rk ip =
    if is_empty p.uuid
    then some (true, false)
    else if p.uuid == rk.uuid
    then if not (p.info.ip == ip) && not (p.pk == rk.pk)
      then none
      else some (
        not (p.uuid == rk.uuid) || not (p.pk == rk.pk) || not (p.info.ip == ip),
        not (p.info.ip == ip),
      )
    else none

-- The rate limit of one key; `none` is TOO_FREQUENT.
unfoldable pub next_reg_pk : ℕ → RegPk → Option RegPk
unfolding elapsed_secs
next_reg_pk now req_pk =
    if ltb 6 (elapsed_secs now req_pk.tm)
    then some (record { count = 1; tm = now })
    else if ltb 2 req_pk.count
    then none
    else some (record { count = (req_pk.count + 1) % 2 ^ 32; tm = now })

abbrev pub ip_change_dur : ℕ
ip_change_dur = 180

-- `*v += 1`, on the bit pattern of an i32, or a first entry.
count_ip : String → Option ℕ → Dict String ℕ → Dict String ℕ
unfolding insert
count_ip ip (some v) ips = insert ip ((v + 1) % 2 ^ 32) ips
count_ip ip none ips = insert ip 1 ips

change_entry : ℕ → String → Option IpChange → IpChange
unfolding count_ip insert lookup elapsed_secs
change_entry now ip (some c) =
    if ltb ip_change_dur (elapsed_secs now c.tm)
    then record { tm = now; ips = insert ip 1 [] }
    else record c { ips = count_ip ip (lookup ip c.ips) c.ips }
change_entry now ip none = record { tm = now; ips = (ip, 1) ∷ [] }

unfoldable pub record_ip_change : ℕ → String → String → Dict String IpChange → Dict String IpChange
unfolding change_entry insert lookup
record_ip_change now id ip changes = insert id (change_entry now ip (lookup id changes)) changes

-- What follows a successful `update_addr`.
send_config : Ctx → Local → SocketAddr → RegisterPeer → Status × Shared → Status × Shared
unfolding send_udp
send_config ctx l addr rp (failed, s) = (failed, s)
send_config ctx l addr rp (done, s) =
    if ltb_ℤ rp.serial l.inner.serial
    then send_udp ctx
        (configure_update
          (record { serial = l.inner.serial; rendezvous_servers = l.rendezvous_servers }))
        addr s
    else (done, s)

module _ (env : Env) where
  -- `old` has moved to another address that is no loopback address.
  unfoldable pub has_moved : Peer → SocketAddr → Bool
  unfolding is_loopback
  has_moved old addr =
      (if not (eqb old.socket_addr.port 0)
        then not (addr.ip == old.socket_addr.ip)
        else not (env.show_ip addr.ip == old.info.ip))
      && not (is_loopback addr.ip)

  -- `request_pk`, and the peers afterwards.
  refresh : Ctx → SocketAddr → Option LockPeer → PeerMap → Bool × PeerMap
  unfolding has_moved write
  refresh ctx addr none pm = (true, pm)
  refresh ctx addr (some r) pm =
      let old = pm.cell r in
      let request_pk = is_empty old.pk || has_moved old addr in
      if request_pk
      then (true, pm)
      else (false, write r (record old { socket_addr = addr; last_reg_time = ctx.now }) pm)

  unfoldable pub update_addr : Ctx → String → SocketAddr → Shared → Status × Shared
  unfolding refresh get_in_memory send_udp
  update_addr ctx id addr s =
      let (request_pk, pm) = refresh ctx addr (get_in_memory id s.pm) s.pm in
      send_udp ctx (register_peer_response request_pk) addr (record s { pm = pm })

  unfoldable pub handle_register_peer :
      Ctx → Local → SocketAddr → RegisterPeer → Shared → Status × Shared
  unfolding update_addr send_config
  handle_register_peer ctx l addr rp s =
      if rp.id == "" then (done, s) else send_config ctx l addr rp (update_addr ctx rp.id addr s)

  -- The registration is neither refused nor too frequent.
  accept_pk :
      Ctx → SocketAddr → RegisterPk → String → LockPeer → Bool → Bool → RegPk → Shared → Shared
  unfolding write record_ip_change update_pk
  accept_pk ctx addr rk ip r changed ip_changed req_pk s =
      let pm = write r (record (s.pm.cell r) { reg_pk = req_pk }) s.pm in
      record s {
        pm = if changed then (update_pk env ctx rk.id r addr rk.uuid rk.pk ip pm).1 else pm;
        ip_changes =
            if ip_changed then record_ip_change ctx.now rk.id ip s.ip_changes else s.ip_changes;
      }

  limit_pk :
      Ctx
      → SocketAddr
      → RegisterPk
      → String
      → LockPeer
      → Bool × Bool
      → Option RegPk
      → Shared
      → Status × Shared
  unfolding accept_pk send_rk_res
  limit_pk ctx addr rk ip r c none s = send_rk_res ctx addr too_frequent s
  limit_pk ctx addr rk ip r (changed, ip_changed) (some req_pk) s =
      send_rk_res ctx addr pk_ok (accept_pk ctx addr rk ip r changed ip_changed req_pk s)

  compare_pk :
      Ctx
      → SocketAddr
      → RegisterPk
      → String
      → LockPeer
      → Option (Bool × Bool)
      → Shared
      → Status × Shared
  unfolding limit_pk next_reg_pk send_rk_res
  compare_pk ctx addr rk ip r none s = send_rk_res ctx addr uuid_mismatch s
  compare_pk ctx addr rk ip r (some c) s =
      limit_pk ctx addr rk ip r c (next_reg_pk ctx.now (s.pm.cell r).reg_pk) s

  unfoldable pub register_found :
      Ctx → SocketAddr → RegisterPk → String → LockPeer → Shared → Status × Shared
  unfolding compare_pk compare_owner
  register_found ctx addr rk ip r s =
      compare_pk ctx addr rk ip r (compare_owner (s.pm.cell r) rk ip) s

  admit_pk : Ctx → SocketAddr → RegisterPk → String → Bool × IpBlockMap → Shared → Status × Shared
  unfolding register_found get_or send_rk_res
  admit_pk ctx addr rk ip (false, blocker) s =
      send_rk_res ctx addr too_frequent (record s { ip_blocker = blocker })
  admit_pk ctx addr rk ip (true, blocker) s =
      let (r, pm) = get_or env ctx rk.id s.pm in
      register_found ctx addr rk ip r (record s { ip_blocker = blocker; pm = pm })

  unfoldable pub handle_register_pk : Ctx → SocketAddr → RegisterPk → Shared → Status × Shared
  unfolding admit_pk check_ip_blocker send_rk_res
  handle_register_pk ctx addr rk s =
      if is_empty rk.uuid || is_empty rk.pk
      then (done, s)
      else if ltb (len rk.id) 6
      then send_rk_res ctx addr uuid_mismatch s
      else let ip = env.show_ip addr.ip in
        admit_pk ctx addr rk ip (check_ip_blocker ctx.now ip rk.id s.ip_blocker) s
