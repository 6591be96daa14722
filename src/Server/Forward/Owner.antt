-- ===== src/Server/Forward/Owner.antt =====
-- Answers passed on to A keep the owners of ids.
use kinbridge_server.Prelude.{
  ◌≡◌, refl, Bool, true, false, String, Option, none, some, ◌==◌, string_eq, if◌then◌else◌,
}
use kinbridge_server.Net.{SocketAddr}
use kinbridge_server.Message.{Message, Bytes, PunchHoleSent, LocalAddr}
use kinbridge_server.Env.{Env, Ctx}
use kinbridge_server.Peers.{PeerMap, LockPeer, get}
use kinbridge_server.Peers.Valid.{IsValid}
use kinbridge_server.Peers.Owners.{Keeps, Keeps-refl, get-Keeps}
use kinbridge_server.Server.State.{Local, Shared}
use kinbridge_server.Server.Send.Frame.{pm-send_udp, pm-send_to_tcp}
use kinbridge_server.Server.Forward.{
  signed, get_pk_with, get_pk, answer_a, handle_hole_sent, handle_local_addr,
}

Keeps-if :
    (pm : PeerMap) (b : Bool) (x y : Bytes × PeerMap)
    → Keeps pm x.1
    → Keeps pm y.1
    → Keeps pm (if b then x else y).1
Keeps-if pm true x y kx ky = kx
Keeps-if pm false x y kx ky = ky

module _ (env : Env) (ctx : Ctx) where
  signed-pm :
      (id : String) (sk : Bytes) (g : Option LockPeer × PeerMap) → (signed env id sk g).1 ≡ g.1
  unfolding signed
  signed-pm id sk (none, pm) = refl
  signed-pm id sk (some r, pm) = refl

  get_pk_with-Keeps :
      (sk : Option Bytes) (id : String) (pm : PeerMap)
      → IsValid pm
      → Keeps pm (get_pk_with env ctx sk id pm).1
  unfolding get_pk_with
  get_pk_with-Keeps none id pm v = Keeps-refl pm v
  get_pk_with-Keeps (some sk) id pm v =
      rw (signed-pm id sk (get env ctx id pm)) (get-Keeps env ctx id pm v)

  pub get_pk-Keeps :
      (l : Local) (version id : String) (pm : PeerMap)
      → IsValid pm
      → Keeps pm (get_pk env ctx l version id pm).1
  unfolding get_pk
  get_pk-Keeps l version id pm v =
      Keeps-if pm (version == "") _ _ (Keeps-refl pm v) (get_pk_with-Keeps l.inner.sk id pm v)

  answer_a-pm :
      (socket : Bool) (m : Message) (a : SocketAddr) (s : Shared)
      → (answer_a env ctx socket m a s).1.pm ≡ s.pm
  unfolding answer_a
  answer_a-pm true m a s = pm-send_udp ctx m a s
  answer_a-pm false m a s = pm-send_to_tcp env m a s

  pub handle_hole_sent-Keeps :
      (l : Local) (phs : PunchHoleSent) (addr : SocketAddr) (socket : Bool) (s : Shared)
      → IsValid s.pm
      → Keeps s.pm (handle_hole_sent env ctx l phs addr socket s).1.pm
  unfolding handle_hole_sent
  handle_hole_sent-Keeps l phs addr socket s v =
      rw answer_a-pm (get_pk-Keeps l phs.version phs.id s.pm v)

  pub handle_local_addr-Keeps :
      (l : Local) (la : LocalAddr) (addr : SocketAddr) (socket : Bool) (s : Shared)
      → IsValid s.pm
      → Keeps s.pm (handle_local_addr env ctx l la addr socket s).1.pm
  unfolding handle_local_addr
  handle_local_addr-Keeps l la addr socket s v =
      rw answer_a-pm (get_pk-Keeps l la.version la.id s.pm v)
