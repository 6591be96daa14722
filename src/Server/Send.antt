-- ===== src/Server/Send.antt =====
-- Sending: over the UDP socket, into a stored TCP or WebSocket sink, and the answer to RegisterPk.
pub mod Frame
use kinbridge_server.Prelude.{
  ℕ, Bool, true, false, String, List, [], ◌∷◌, ◌++◌, Option, some, none, if◌then◌else◌,
}
use kinbridge_server.Dict.{lookup, remove}
use kinbridge_server.Net.{SocketAddr, socket_addr_eq}
use kinbridge_server.Env.{Env, Ctx}
use kinbridge_server.Message.{Message, RegisterPkResult, register_pk_response}
use kinbridge_server.Server.State.{Sink, Data, Shared}

-- A handler's ResultType<()>: `failed` ends the loop with LoopFailure::UdpSocket.
pub data Status : Type 0 where
  done failed : Status

-- `socket.send(&msg, addr).await`.
unfoldable pub send_udp : Ctx → Message → SocketAddr → Shared → Status × Shared
send_udp ctx m addr s =
    if ctx.send_ok
    then (done, record s { udp_sent = s.udp_sent ++ (m, addr) ∷ [] })
    else (failed, s)

-- `self.tx.send(d)`: the channel is unbounded, and its receiver lives as long as the loop.
unfoldable pub send_tx : Data → Shared → Shared
send_tx d s = record s { tx = s.tx ++ d ∷ [] }

unfoldable pub send_to_sink : Option Sink → Message → Shared → Shared
send_to_sink none m s = s
send_to_sink (some sink) m s = record s { tcp_sent = s.tcp_sent ++ (sink, m) ∷ [] }

unfoldable pub send_rk_res : Ctx → SocketAddr → RegisterPkResult → Shared → Status × Shared
unfolding send_udp
send_rk_res ctx addr res s = send_udp ctx (register_pk_response res) addr s

module _ (env : Env) where
  -- The sink is taken out of `tcp_punch`, so it serves one message.
  unfoldable pub send_to_tcp_sync : Message → SocketAddr → Shared → Shared
  unfolding send_to_sink lookup remove
  send_to_tcp_sync m addr s =
      let key = env.try_into_v4 addr in
      send_to_sink (lookup key s.tcp_punch) m (record s { tcp_punch = remove key s.tcp_punch })

  -- The same, with the sending in a task of its own.
  unfoldable pub send_to_tcp : Message → SocketAddr → Shared → Shared
  unfolding send_to_tcp_sync
  send_to_tcp m addr s = send_to_tcp_sync m addr s
