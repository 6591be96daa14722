-- ===== src/Server/Send/Frame.antt =====
-- Sending leaves the peers alone.
use kinbridge_server.Prelude.{◌≡◌, refl, Option, none, some, arith}
use kinbridge_server.Dict.{lookup}
use kinbridge_server.Net.{SocketAddr, socket_addr_eq}
use kinbridge_server.Message.{Message}
use kinbridge_server.Env.{Env, Ctx}
use kinbridge_server.Server.State.{Shared, Sink, Data}
use kinbridge_server.Server.Send.{send_udp, send_tx, send_to_sink, send_to_tcp_sync, send_to_tcp}

pub pm-send_udp :
    (ctx : Ctx) (m : Message) (a : SocketAddr) (s : Shared) → (send_udp ctx m a s).1.pm ≡ s.pm
unfolding send_udp
pm-send_udp ctx m a s = ground arith

pub pm-send_tx : (d : Data) (s : Shared) → (send_tx d s).pm ≡ s.pm
unfolding send_tx
pm-send_tx d s = refl

pub pm-send_to_sink : (o : Option Sink) (m : Message) (s : Shared) → (send_to_sink o m s).pm ≡ s.pm
unfolding send_to_sink
pm-send_to_sink none m s = refl
pm-send_to_sink (some k) m s = refl

pub pm-send_to_tcp_sync :
    (env : Env) (m : Message) (a : SocketAddr) (s : Shared) → (send_to_tcp_sync env m a s).pm ≡ s.pm
unfolding send_to_tcp_sync
pm-send_to_tcp_sync env m a s = pm-send_to_sink (lookup (env.try_into_v4 a) s.tcp_punch) m _

pub pm-send_to_tcp :
    (env : Env) (m : Message) (a : SocketAddr) (s : Shared) → (send_to_tcp env m a s).pm ≡ s.pm
unfolding send_to_tcp
pm-send_to_tcp env m a s = pm-send_to_tcp_sync env m a s
