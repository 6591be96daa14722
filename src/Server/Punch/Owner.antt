-- ===== src/Server/Punch/Owner.antt =====
-- Requests to reach a peer keep the owners of ids.
use kinbridge_server.Prelude.{
  ◌≡◌, refl, Bool, true, false, not, ◌&&◌, String, Option, none, some, ◌==◌, string_eq,
  if◌then◌else◌, arith,
}
use kinbridge_server.Net.{SocketAddr}
use kinbridge_server.Message.{PunchHoleRequest}
use kinbridge_server.Env.{Env, Ctx}
use kinbridge_server.Peers.{PeerMap, LockPeer, get}
use kinbridge_server.Peers.Valid.{IsValid}
use kinbridge_server.Peers.Owners.{Keeps, Keeps-refl, get-Keeps}
use kinbridge_server.Server.State.{Local, Shared}
use kinbridge_server.Server.Send.Frame.{pm-send_to_tcp_sync}
use kinbridge_server.Server.Punch.{
  Answer, punch_peer, handle_punch_hole_request, deliver_udp, deliver_tcp,
  handle_udp_punch_hole_request, handle_tcp_punch_hole_request,
}

Keeps-if :
    (pm : PeerMap) (b : Bool) (x y : Answer × Shared)
    → Keeps pm x.1.pm
    → Keeps pm y.1.pm
    → Keeps pm (if b then x else y).1.pm
Keeps-if pm true x y kx ky = kx
Keeps-if pm false x y kx ky = ky

module _ (env : Env) (ctx : Ctx) (l : Local) (addr : SocketAddr) (ph : PunchHoleRequest) where
  punch_peer-pm :
      (ws : Bool) (g : Option LockPeer × PeerMap) (s : Shared)
      → (punch_peer env ctx l addr ph ws g s).1.pm ≡ g.1
  unfolding punch_peer
  punch_peer-pm ws (none, pm) s = refl
  punch_peer-pm ws (some r, pm) s = ground arith

  handle_punch_hole_request-Keeps :
      (key : String) (ws : Bool) (s : Shared)
      → IsValid s.pm
      → Keeps s.pm (handle_punch_hole_request env ctx l addr ph key ws s).1.pm
  unfolding handle_punch_hole_request
  handle_punch_hole_request-Keeps key ws s v =
      Keeps-if s.pm (not (key == "") && not (ph.licence_key == key)) _ _ (Keeps-refl s.pm v)
        (rw (punch_peer-pm ws (get env ctx ph.id s.pm) s) (get-Keeps env ctx ph.id s.pm v))

  deliver_udp-pm : (a : Answer × Shared) → (deliver_udp addr a).pm ≡ a.1.pm
  unfolding deliver_udp
  deliver_udp-pm ((m, some to), s) = refl
  deliver_udp-pm ((m, none), s) = refl

  deliver_tcp-pm : (a : Answer × Shared) → (deliver_tcp env addr a).pm ≡ a.1.pm
  unfolding deliver_tcp
  deliver_tcp-pm ((m, some to), s) = refl
  deliver_tcp-pm ((m, none), s) = pm-send_to_tcp_sync env m addr s

  pub handle_udp_punch_hole_request-Keeps :
      (key : String) (s : Shared)
      → IsValid s.pm
      → Keeps s.pm (handle_udp_punch_hole_request env ctx l addr ph key s).pm
  unfolding handle_udp_punch_hole_request
  handle_udp_punch_hole_request-Keeps key s v =
      rw (deliver_udp-pm (handle_punch_hole_request env ctx l addr ph key false s))
        (handle_punch_hole_request-Keeps key false s v)

  pub handle_tcp_punch_hole_request-Keeps :
      (key : String) (ws : Bool) (s : Shared)
      → IsValid s.pm
      → Keeps s.pm (handle_tcp_punch_hole_request env ctx l addr ph key ws s).pm
  unfolding handle_tcp_punch_hole_request
  handle_tcp_punch_hole_request-Keeps key ws s v =
      rw (deliver_tcp-pm (handle_punch_hole_request env ctx l addr ph key ws s))
        (handle_punch_hole_request-Keeps key ws s v)
