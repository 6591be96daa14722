-- ===== src/Server/Tcp.antt =====
-- `handle_tcp`: one message of a TCP or WebSocket connection.
pub mod Owner
pub mod Sinks
use Prim.Native.String.{◌++◌ as append}
use kinbridge_server.Prelude.{
  ℕ, Bool, true, false, not, ◌&&◌, String, List, [], ◌∷◌, Option, some, none, if◌then◌else◌, ◌==◌,
  string_eq,
}
use kinbridge_server.Prelude.Int.{ℤ, ltb_ℤ}
use kinbridge_server.Dict.{insert, remove}
use kinbridge_server.Net.{SocketAddr, socket_addr_eq}
use kinbridge_server.Common.Text.{contains_char}
use kinbridge_server.Env.{Env, Ctx}
use kinbridge_server.Message.{
  Bytes, Message, RequestRelay, RelayResponse, RelayUnion, by_id, by_pk, unset, punch_hole_request,
  request_relay, relay_response, punch_hole_sent, local_addr, test_nat_request, register_pk,
  test_nat_response, register_pk_response, not_support,
}
use kinbridge_server.Peers.{LockPeer, get_in_memory}
use kinbridge_server.Server.State.{Local, Shared, Sink, msg}
use kinbridge_server.Server.Send.{Status, send_tx, send_to_sink, send_to_tcp_sync}
use kinbridge_server.Server.Relays.{get_relay_server, is_lan}
use kinbridge_server.Server.Punch.{handle_tcp_punch_hole_request}
use kinbridge_server.Server.Forward.{get_pk, handle_hole_sent, handle_local_addr}

-- `rr.id()`, empty for another variant.
union_id : RelayUnion → String
union_id (by_id id) = id
union_id (by_pk pk) = ""
union_id unset = ""

-- Whether the connection goes on, the sink that it still owns, and the state.
abbrev pub TcpOutcome : Type 0
TcpOutcome = Bool × Option Sink × Shared

unfoldable pub test_nat : Local → SocketAddr → ℤ → Message
test_nat l addr serial = test_nat_response (record {
  port = addr.port;
  cu =
      if ltb_ℤ serial l.inner.serial
      then some (record { serial = l.inner.serial; rendezvous_servers = l.rendezvous_servers })
      else none;
})

module _ (env : Env) where
  -- `sink.take()` into `tcp_punch`; there may be several attempts, so the sink can be gone.
  unfoldable pub park : Option Sink → SocketAddr → Shared → Shared
  unfolding insert
  park none addr s = s
  park (some sink) addr s = record s { tcp_punch = insert (env.try_into_v4 addr) sink s.tcp_punch }

  relay_request : SocketAddr → RequestRelay → Option LockPeer → Shared → Shared
  unfolding send_tx
  relay_request addr rf none s = s
  relay_request addr rf (some r) s =
      send_tx
        (msg (request_relay (record rf { socket_addr = env.encode addr }))
          (s.pm.cell r).socket_addr)
        s

  -- The relay server of a RelayResponse from `addr` to B's `addr_b`.
  relay_server_for : Local → SocketAddr → String → ℕ → String × ℕ
  unfolding is_lan get_relay_server
  relay_server_for l addr_b relay_server rotation =
      if relay_server == ""
      then (relay_server, rotation)
      else if is_lan l addr_b
      then (l.inner.local_ip, rotation)
      else if relay_server == l.inner.local_ip
      then get_relay_server l.relay_servers rotation
      else (relay_server, rotation)

  unfoldable pub handle_relay_response : Ctx → Local → RelayResponse → Shared → Shared
  unfolding union_id get_pk relay_server_for send_to_tcp_sync
  handle_relay_response ctx l rr s =
      let addr_b = env.decode rr.socket_addr in
      let id = union_id rr.union in
      let (pk, pm) = get_pk env ctx l rr.version id s.pm in
      let (relay_server, rotation) =
        relay_server_for l addr_b rr.relay_server s.rotation_relay_server in
      send_to_tcp_sync env
        (relay_response (record rr {
          socket_addr = [];
          union = if id == "" then rr.union else by_pk pk;
          relay_server = relay_server;
        }))
        addr_b (record s { pm = if id == "" then s.pm else pm; rotation_relay_server = rotation })

  unfoldable pub handle_tcp_message :
      Ctx → Local → String → Bool → SocketAddr → Message → Option Sink → Shared → TcpOutcome
  unfolding park relay_request get_in_memory handle_tcp_punch_hole_request handle_relay_response
      handle_hole_sent handle_local_addr test_nat send_to_sink
  handle_tcp_message ctx l key ws addr (punch_hole_request ph) sink s =
      (true, none, handle_tcp_punch_hole_request env ctx l addr ph key ws (park sink addr s))
  handle_tcp_message ctx l key ws addr (request_relay rf) sink s =
      (true, none, relay_request addr rf (get_in_memory rf.id s.pm) (park sink addr s))
  handle_tcp_message ctx l key ws addr (relay_response rr) sink s =
      (false, sink, handle_relay_response ctx l rr s)
  handle_tcp_message ctx l key ws addr (punch_hole_sent phs) sink s =
      (false, sink, (handle_hole_sent env ctx l phs addr false s).1)
  handle_tcp_message ctx l key ws addr (local_addr la) sink s =
      (false, sink, (handle_local_addr env ctx l la addr false s).1)
  handle_tcp_message ctx l key ws addr (test_nat_request serial) sink s =
      (false, sink, send_to_sink sink (test_nat l addr serial) s)
  handle_tcp_message ctx l key ws addr (register_pk rk) sink s =
      (false, sink, send_to_sink sink (register_pk_response not_support) s)
  handle_tcp_message ctx l key ws addr m sink s = (false, sink, s)

  unfoldable pub handle_parsed :
      Ctx → Local → String → Bool → SocketAddr → Option Message → Option Sink → Shared → TcpOutcome
  unfolding handle_tcp_message
  handle_parsed ctx l key ws addr (some m) sink s = handle_tcp_message ctx l key ws addr m sink s
  handle_parsed ctx l key ws addr none sink s = (false, sink, s)

  unfoldable pub handle_tcp :
      Ctx → Local → String → Bool → SocketAddr → Bytes → Option Sink → Shared → TcpOutcome
  unfolding handle_parsed
  handle_tcp ctx l key ws addr bytes sink s =
      handle_parsed ctx l key ws addr (env.parse_from_bytes bytes) sink s
