-- ===== src/Server/Udp.antt =====
-- `handle_udp`: one datagram. The task that a PunchHoleRequest spawns for a peer that is not in
-- memory runs here at once; its clone of the server has the same Local.
pub mod Config
pub mod Identity
use kinbridge_server.Prelude.{
  ℕ, Bool, true, false, not, ◌&&◌, String, List, [], Option, some, none, if◌then◌else◌, ◌==◌,
  string_eq,
}
use kinbridge_server.Prelude.Int.{ℤ, ltb_ℤ}
use kinbridge_server.Net.{SocketAddr, is_loopback}
use kinbridge_server.Common.{keep_servers}
use kinbridge_server.Env.{Env, Ctx}
use kinbridge_server.Message.{
  Bytes, Message, PunchHoleRequest, ConfigUpdate, register_peer, register_pk, punch_hole_request,
  punch_hole_sent, local_addr, configure_update, software_update,
}
use kinbridge_server.Peers.{is_in_memory}
use kinbridge_server.Server.State.{Local, Shared, Inner}
use kinbridge_server.Server.Send.{Status, done, failed, send_udp}
use kinbridge_server.Server.Register.{handle_register_peer, handle_register_pk}
use kinbridge_server.Server.Punch.{handle_udp_punch_hole_request}
use kinbridge_server.Server.Forward.{handle_hole_sent, handle_local_addr}

-- The result of a datagram: what the handler returned, and both parts of the state.
abbrev pub Outcome : Type 0
Outcome = Status × Local × Shared

with_local : Local → Status × Shared → Outcome
with_local l (r, s) = (r, l, s)

unfoldable pub handle_software_update : Ctx → Local → SocketAddr → String → Shared → Status × Shared
unfolding send_udp
handle_software_update ctx l addr url s =
    if not (l.inner.version == "") && not (url == l.inner.version)
    then send_udp ctx (software_update l.inner.software_url) addr s
    else (done, s)

module _ (env : Env) where
  -- Only a sender on this machine may change the configuration, and only to a later serial number.
  unfoldable pub configured : SocketAddr → ConfigUpdate → Local → Local
  unfolding is_loopback keep_servers
  configured addr cu l =
      if is_loopback (env.try_into_v4 addr).ip && ltb_ℤ l.inner.serial cu.serial
      then record l {
        inner = record l.inner { serial = cu.serial };
        rendezvous_servers = keep_servers env cu.rendezvous_servers;
      }
      else l

  punch_request : Ctx → Local → SocketAddr → PunchHoleRequest → String → Shared → Status × Shared
  unfolding handle_udp_punch_hole_request
  punch_request ctx l addr ph key s = (done, handle_udp_punch_hole_request env ctx l addr ph key s)

  unfoldable pub handle_udp_message : Ctx → Local → String → SocketAddr → Message → Shared → Outcome
  unfolding with_local handle_register_peer handle_register_pk punch_request handle_hole_sent
      handle_local_addr configured handle_software_update
  handle_udp_message ctx l key addr (register_peer rp) s =
      with_local l (handle_register_peer env ctx l addr rp s)
  handle_udp_message ctx l key addr (register_pk rk) s =
      with_local l (handle_register_pk env ctx addr rk s)
  handle_udp_message ctx l key addr (punch_hole_request ph) s =
      with_local l (punch_request ctx l addr ph key s)
  handle_udp_message ctx l key addr (punch_hole_sent phs) s =
      with_local l (handle_hole_sent env ctx l phs addr true s)
  handle_udp_message ctx l key addr (local_addr la) s =
      with_local l (handle_local_addr env ctx l la addr true s)
  handle_udp_message ctx l key addr (configure_update cu) s = (done, configured addr cu l, s)
  handle_udp_message ctx l key addr (software_update url) s =
      with_local l (handle_software_update ctx l addr url s)
  handle_udp_message ctx l key addr m s = (done, l, s)

  handle_parsed : Ctx → Local → String → SocketAddr → Option Message → Shared → Outcome
  unfolding handle_udp_message
  handle_parsed ctx l key addr (some m) s = handle_udp_message ctx l key addr m s
  handle_parsed ctx l key addr none s = (done, l, s)

  unfoldable pub handle_udp : Ctx → Local → String → SocketAddr → Bytes → Shared → Outcome
  unfolding handle_parsed
  handle_udp ctx l key addr bytes s = handle_parsed ctx l key addr (env.parse_from_bytes bytes) s
