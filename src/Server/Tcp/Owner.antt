-- ===== src/Server/Tcp/Owner.antt =====
-- A frame of a connection keeps the owners of ids.
use kinbridge_server.Prelude.{
  ◌≡◌, refl, Bool, true, false, String, Option, none, some, ◌==◌, string_eq, if◌then◌else◌,
}
use kinbridge_server.Net.{SocketAddr}
use kinbridge_server.Message.{
  Message, Bytes, RequestRelay, RelayResponse, punch_hole_request, request_relay, relay_response,
  punch_hole_sent, local_addr, test_nat_request, register_pk,
}
use kinbridge_server.Env.{Env, Ctx}
use kinbridge_server.Peers.{PeerMap, LockPeer, get_in_memory}
use kinbridge_server.Peers.Valid.{IsValid}
use kinbridge_server.Peers.Owners.{Keeps, Keeps-refl}
use kinbridge_server.Server.State.{Local, Shared, Sink}
use kinbridge_server.Server.Send.Frame.{pm-send_to_sink, pm-send_to_tcp_sync}
use kinbridge_server.Server.Punch.Owner.{handle_tcp_punch_hole_request-Keeps}
use kinbridge_server.Server.Forward.Owner.{
  get_pk-Keeps, handle_hole_sent-Keeps, handle_local_addr-Keeps,
}
use kinbridge_server.Server.Tcp.{
  park, relay_request, handle_relay_response, union_id, handle_tcp_message, handle_parsed,
  handle_tcp,
}

pub pm-park :
    (env : Env) (sink : Option Sink) (addr : SocketAddr) (s : Shared)
    → (park env sink addr s).pm ≡ s.pm
unfolding park
pm-park env none addr s = refl
pm-park env (some k) addr s = refl

relay_request-pm :
    (env : Env) (addr : SocketAddr) (rf : RequestRelay) (o : Option LockPeer) (s : Shared)
    → (relay_request env addr rf o s).pm ≡ s.pm
unfolding relay_request
relay_request-pm env addr rf none s = refl
relay_request-pm env addr rf (some r) s = refl

Keeps-if :
    (pm : PeerMap) (b : Bool) (x y : PeerMap)
    → Keeps pm x
    → Keeps pm y
    → Keeps pm (if b then x else y)
Keeps-if pm true x y kx ky = kx
Keeps-if pm false x y kx ky = ky

handle_relay_response-Keeps :
    (env : Env) (ctx : Ctx) (l : Local) (rr : RelayResponse) (s : Shared)
    → IsValid s.pm
    → Keeps s.pm (handle_relay_response env ctx l rr s).pm
unfolding handle_relay_response
handle_relay_response-Keeps env ctx l rr s v = rw pm-send_to_tcp_sync (
    Keeps-if s.pm (union_id rr.union == "") _ _ (Keeps-refl s.pm v)
      (get_pk-Keeps env ctx l rr.version (union_id rr.union) s.pm v))

module _ (env : Env) (ctx : Ctx) (l : Local) (key : String) (ws : Bool) (addr : SocketAddr) where
  pub handle_tcp_message-Keeps :
      (m : Message) (sink : Option Sink) (s : Shared)
      → IsValid s.pm
      → Keeps s.pm (handle_tcp_message env ctx l key ws addr m sink s).2.pm
  unfolding handle_tcp_message
  handle_tcp_message-Keeps (punch_hole_request ph) none s v =
      handle_tcp_punch_hole_request-Keeps env ctx l addr ph key ws s v
  handle_tcp_message-Keeps (punch_hole_request ph) (some k) s v =
      handle_tcp_punch_hole_request-Keeps env ctx l addr ph key ws (park env (some k) addr s) v
  handle_tcp_message-Keeps (request_relay rf) sink s v =
      rw (relay_request-pm env addr rf (get_in_memory rf.id s.pm) (park env sink addr s))
        (rw (pm-park env sink addr s) (Keeps-refl s.pm v))
  handle_tcp_message-Keeps (relay_response rr) sink s v =
      handle_relay_response-Keeps env ctx l rr s v
  handle_tcp_message-Keeps (punch_hole_sent phs) sink s v =
      handle_hole_sent-Keeps env ctx l phs addr false s v
  handle_tcp_message-Keeps (local_addr la) sink s v =
      handle_local_addr-Keeps env ctx l la addr false s v
  handle_tcp_message-Keeps (test_nat_request serial) sink s v =
      rw (pm-send_to_sink sink) (Keeps-refl s.pm v)
  handle_tcp_message-Keeps (register_pk rk) sink s v = rw (pm-send_to_sink sink) (Keeps-refl s.pm v)
  handle_tcp_message-Keeps m sink s v = Keeps-refl s.pm v

  handle_parsed-Keeps :
      (o : Option Message) (sink : Option Sink) (s : Shared)
      → IsValid s.pm
      → Keeps s.pm (handle_parsed env ctx l key ws addr o sink s).2.pm
  unfolding handle_parsed
  handle_parsed-Keeps none sink s v = Keeps-refl s.pm v
  handle_parsed-Keeps (some m) sink s v = handle_tcp_message-Keeps m sink s v

  -- One frame keeps every owner, whatever it holds and whoever sent it.
  pub handle_tcp-Keeps :
      (bytes : Bytes) (sink : Option Sink) (s : Shared)
      → IsValid s.pm
      → Keeps s.pm (handle_tcp env ctx l key ws addr bytes sink s).2.pm
  unfolding handle_tcp
  handle_tcp-Keeps bytes sink s v = handle_parsed-Keeps (env.parse_from_bytes bytes) sink s v
