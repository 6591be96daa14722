-- ===== src/Server/Forward.antt =====
-- `get_pk`, and the answers of B that are passed on to A: `handle_hole_sent`, `handle_local_addr`.
pub mod Owner
use kinbridge_server.Prelude.{
  ℕ, Bool, true, false, String, List, [], Option, some, none, if◌then◌else◌, ◌==◌, string_eq,
}
use kinbridge_server.Net.{SocketAddr}
use kinbridge_server.Env.{Env, Ctx}
use kinbridge_server.Message.{
  Bytes, Message, PunchHoleSent, LocalAddr, PunchHoleResponse, NatType, NatTypeField, known,
  unknown, punch_hole_response,
}
use kinbridge_server.Peers.{LockPeer, PeerMap, get}
use kinbridge_server.Server.State.{Local, Shared}
use kinbridge_server.Server.Send.{Status, done, send_udp, send_to_tcp}

-- `enum_value().ok()`.
unfoldable pub enum_value : NatTypeField → Option NatType
enum_value (known t) = some t
enum_value (unknown n) = none

module _ (env : Env) where
  signed : String → Bytes → Option LockPeer × PeerMap → Bytes × PeerMap
  signed id sk (none, pm) = ([], pm)
  signed id sk (some r, pm) = (env.sign (env.id_pk_bytes id (pm.cell r).pk) sk, pm)

  get_pk_with : Ctx → Option Bytes → String → PeerMap → Bytes × PeerMap
  unfolding signed get
  get_pk_with ctx none id pm = ([], pm)
  get_pk_with ctx (some sk) id pm = signed id sk (get env ctx id pm)

  -- The signed key, and the peers afterwards, since a peer may have been loaded.
  unfoldable pub get_pk : Ctx → Local → String → String → PeerMap → Bytes × PeerMap
  unfolding get_pk_with
  get_pk ctx l version id pm = if version == "" then ([], pm) else get_pk_with ctx l.inner.sk id pm

  -- With the socket the answer goes by UDP, and without it into the sink of A.
  answer_a : Ctx → Bool → Message → SocketAddr → Shared → Status × Shared
  unfolding send_udp send_to_tcp
  answer_a ctx true m a s = send_udp ctx m a s
  answer_a ctx false m a s = (done, send_to_tcp env m a s)

  unfoldable pub handle_hole_sent :
      Ctx → Local → PunchHoleSent → SocketAddr → Bool → Shared → Status × Shared
  unfolding get_pk answer_a enum_value
  handle_hole_sent ctx l phs addr socket s =
      let (pk, pm) = get_pk ctx l phs.version phs.id s.pm in
      answer_a ctx socket
        (punch_hole_response (record {
          socket_addr = env.encode addr;
          pk = pk;
          failure = none;
          relay_server = phs.relay_server;
          nat_type = enum_value phs.nat_type;
          is_local = false;
        }))
        (env.decode phs.socket_addr) (record s { pm = pm })

  unfoldable pub handle_local_addr :
      Ctx → Local → LocalAddr → SocketAddr → Bool → Shared → Status × Shared
  unfolding get_pk answer_a
  handle_local_addr ctx l la addr socket s =
      let (pk, pm) = get_pk ctx l la.version la.id s.pm in
      answer_a ctx socket
        (punch_hole_response (record {
          socket_addr = la.local_addr;
          pk = pk;
          failure = none;
          relay_server = la.relay_server;
          nat_type = none;
          is_local = true;
        }))
        (env.decode la.socket_addr) (record s { pm = pm })
