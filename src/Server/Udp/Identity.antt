-- ===== src/Server/Udp/Identity.antt =====
-- What `handle_udp` keeps of the identity of peers, for each kind of message.
use kinbridge_server.Prelude.{◌≡◌, true, String, Option, none, some, string_eq, arith}
use kinbridge_server.Net.{SocketAddr}
use kinbridge_server.Message.{
  Bytes, Message, register_peer, register_pk, punch_hole_request, punch_hole_sent, local_addr,
  software_update,
}
use kinbridge_server.Env.{Env, Ctx}
use kinbridge_server.Peers.Valid.{IsValid}
use kinbridge_server.Peers.Owners.{Keeps, Keeps-refl}
use kinbridge_server.Server.State.{Local, Shared}
use kinbridge_server.Server.Register.Owner.{handle_register_pk-Keeps, handle_register_peer-Keeps}
use kinbridge_server.Server.Punch.Owner.{handle_udp_punch_hole_request-Keeps}
use kinbridge_server.Server.Forward.Owner.{handle_hole_sent-Keeps, handle_local_addr-Keeps}
use kinbridge_server.Server.Udp.{
  handle_udp_message, handle_parsed, handle_udp, handle_software_update,
}

module _ (env : Env) (ctx : Ctx) (l : Local) (key : String) (addr : SocketAddr) where
  software_update-pm :
      (url : String) (s : Shared) → (handle_software_update ctx l addr url s).1.pm ≡ s.pm
  unfolding handle_software_update
  software_update-pm url s = ground arith

  pub handle_udp_message-Keeps :
      (m : Message) (s : Shared)
      → IsValid s.pm
      → Keeps s.pm (handle_udp_message env ctx l key addr m s).2.pm
  unfolding handle_udp_message
  handle_udp_message-Keeps (register_peer rp) s v = handle_register_peer-Keeps env ctx l addr rp s v
  handle_udp_message-Keeps (register_pk rk) s v = handle_register_pk-Keeps env ctx addr rk s v
  handle_udp_message-Keeps (punch_hole_request ph) s v =
      handle_udp_punch_hole_request-Keeps env ctx l addr ph key s v
  handle_udp_message-Keeps (punch_hole_sent phs) s v =
      handle_hole_sent-Keeps env ctx l phs addr true s v
  handle_udp_message-Keeps (local_addr la) s v = handle_local_addr-Keeps env ctx l la addr true s v
  handle_udp_message-Keeps (software_update url) s v =
      rw (software_update-pm url s) (Keeps-refl s.pm v)
  handle_udp_message-Keeps m s v = Keeps-refl s.pm v

  handle_parsed-Keeps :
      (o : Option Message) (s : Shared)
      → IsValid s.pm
      → Keeps s.pm (handle_parsed env ctx l key addr o s).2.pm
  unfolding handle_parsed
  handle_parsed-Keeps none s v = Keeps-refl s.pm v
  handle_parsed-Keeps (some m) s v = handle_udp_message-Keeps m s v

  -- One datagram keeps every owner, whatever it holds and whoever sent it.
  pub handle_udp-Keeps :
      (bytes : Bytes) (s : Shared)
      → IsValid s.pm
      → Keeps s.pm (handle_udp env ctx l key addr bytes s).2.pm
  unfolding handle_udp
  handle_udp-Keeps bytes s v = handle_parsed-Keeps (env.parse_from_bytes bytes) s v
