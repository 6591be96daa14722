-- ===== src/Server/Punch.antt =====
-- `handle_punch_hole_request`: who may reach which peer, and how.
pub mod Unkeyed
pub mod Log
pub mod Networks
pub mod Answer
pub mod Owner
pub mod Reach
pub mod Spacing
use kinbridge_server.Prelude.{
  ℕ, Bool, true, false, not, xor, ◌&&◌, ◌||◌, String, List, [], Option, some, none, if◌then◌else◌,
  ◌==◌, nat_eq, string_eq,
}
use kinbridge_server.Prelude.Int.{ℤ, pos, leb_ℤ}
use kinbridge_server.Net.{IpAddr, SocketAddr, v4, v6, ip_eq}
use kinbridge_server.Time.{elapsed_millis_i32}
use kinbridge_server.Env.{Env, Ctx}
use kinbridge_server.Message.{
  Message, PunchHoleRequest, NatTypeField, known, symmetric, Failure, id_not_exist, offline,
  license_mismatch, punch_hole_response, punch_hole, fetch_local_addr,
}
use kinbridge_server.Peers.{Peer, LockPeer, PeerMap, get}
use kinbridge_server.Server.State.{Local, Shared, msg}
use kinbridge_server.Server.Relays.{get_relay_server, is_lan}
use kinbridge_server.Server.Send.{send_tx, send_to_tcp_sync}
use Log.{record_punch}

-- REG_TIMEOUT, an i32 of milliseconds.
abbrev pub reg_timeout : ℤ
reg_timeout = pos 30_000

-- A PunchHoleResponse with nothing but a failure.
abbrev pub refusal : Failure → Message
refusal f = punch_hole_response (record {
  socket_addr = [];
  pk = [];
  failure = some f;
  relay_server = "";
  nat_type = none;
  is_local = false;
})

-- The `match (peer_addr, addr)` on the two kinds of addresses.
unfoldable pub same_ip : IpAddr → IpAddr → Bool
same_ip (v4 a) (v4 b) = v4 a == v4 b
same_ip (v6 a) (v6 b) = v6 a == v6 b
same_ip _ _ = false

abbrev pub Answer : Type 0
Answer = Message × Option SocketAddr

deliver_udp : SocketAddr → Answer × Shared → Shared
unfolding send_tx
deliver_udp addr ((m, some to), s) = send_tx (msg m to) s
deliver_udp addr ((m, none), s) = send_tx (msg m addr) s

module _ (env : Env) where
  -- The message for a peer that is there, with the relay server that was chosen for it.
  unfoldable pub route :
      Local → Bool → SocketAddr → SocketAddr → NatTypeField → Bool → String → Message
  unfolding is_lan same_ip
  route l always addr peer_addr nat_type ws chosen =
      let peer_is_lan = is_lan l peer_addr in
      let addr_is_lan = is_lan l addr in
      let forced = always || xor peer_is_lan addr_is_lan in
      let relay_server = if forced && peer_is_lan then l.inner.local_ip else chosen in
      let nat = if forced then known symmetric else nat_type in
      let same_intranet = not ws && (peer_is_lan && addr_is_lan || same_ip peer_addr.ip addr.ip) in
      if same_intranet
      then fetch_local_addr (record { socket_addr = env.encode addr; relay_server = relay_server })
      else punch_hole
          (record { socket_addr = env.encode addr; nat_type = nat; relay_server = relay_server })

  -- The request is recorded and a relay server chosen before the message is made.
  punch_alive :
      Ctx → Local → SocketAddr → PunchHoleRequest → Bool → SocketAddr → Shared → Answer × Shared
  unfolding route record_punch get_relay_server
  punch_alive ctx l addr ph ws peer_addr s =
      let from_ip = env.show_ip (env.try_into_v4 addr).ip in
      let to_ip = env.show_ip (env.try_into_v4 peer_addr).ip in
      let (chosen, rotation) = get_relay_server l.relay_servers s.rotation_relay_server in
      (
        (route l s.always_use_relay addr peer_addr ph.nat_type ws chosen, some peer_addr),
        record s {
          punch_reqs = record_punch ctx.now from_ip to_ip ph.id s.punch_reqs;
          rotation_relay_server = rotation;
        },
      )

  pub punch_peer :
      Ctx
      → Local
      → SocketAddr
      → PunchHoleRequest
      → Bool
      → Option LockPeer × PeerMap
      → Shared
      → Answer × Shared
  unfolding punch_alive elapsed_millis_i32
  punch_peer ctx l addr ph ws (none, pm) s = ((refusal id_not_exist, none), record s { pm = pm })
  punch_peer ctx l addr ph ws (some r, pm) s =
      let p = pm.cell r in
      if leb_ℤ reg_timeout (elapsed_millis_i32 ctx.now p.last_reg_time)
      then ((refusal offline, none), record s { pm = pm })
      else punch_alive ctx l addr ph ws p.socket_addr (record s { pm = pm })

  unfoldable pub handle_punch_hole_request :
      Ctx → Local → SocketAddr → PunchHoleRequest → String → Bool → Shared → Answer × Shared
  unfolding punch_peer get
  handle_punch_hole_request ctx l addr ph key ws s =
      if not (key == "") && not (ph.licence_key == key)
      then ((refusal license_mismatch, none), s)
      else punch_peer ctx l addr ph ws (get env ctx ph.id s.pm) s

  -- The answer goes to the peer by the channel, and a refusal back to the asking connection.
  deliver_tcp : SocketAddr → Answer × Shared → Shared
  unfolding send_tx send_to_tcp_sync
  deliver_tcp addr ((m, some to), s) = send_tx (msg m to) s
  deliver_tcp addr ((m, none), s) = send_to_tcp_sync env m addr s

  unfoldable pub handle_tcp_punch_hole_request :
      Ctx → Local → SocketAddr → PunchHoleRequest → String → Bool → Shared → Shared
  unfolding deliver_tcp handle_punch_hole_request
  handle_tcp_punch_hole_request ctx l addr ph key ws s =
      deliver_tcp addr (handle_punch_hole_request ctx l addr ph key ws s)

  unfoldable pub handle_udp_punch_hole_request :
      Ctx → Local → SocketAddr → PunchHoleRequest → String → Shared → Shared
  unfolding deliver_udp handle_punch_hole_request
  handle_udp_punch_hole_request ctx l addr ph key s =
      deliver_udp addr (handle_punch_hole_request ctx l addr ph key false s)
