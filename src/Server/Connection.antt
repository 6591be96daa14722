-- ===== src/Server/Connection.antt =====
-- `handle_listener_inner`: a TCP or WebSocket connection from its first frame to its end, and the
-- answers on the port of the NAT test, `handle_listener2`.
pub mod Life
use Prim.Native.String.{◌++◌ as append}
use kinbridge_server.Prelude.{
  ℕ, Bool, true, false, String, List, [], ◌∷◌, Option, some, none, if◌then◌else◌,
}
use kinbridge_server.Dict.{remove}
use kinbridge_server.Net.{SocketAddr, socket_addr_eq}
use kinbridge_server.Common.Text.{contains_char}
use kinbridge_server.Env.{Env, Ctx}
use kinbridge_server.Message.{Bytes, Message, test_nat_request, test_nat_response, online_request}
use kinbridge_server.Peers.{PeerMap}
use kinbridge_server.Server.State.{Local, Shared, Sink}
use kinbridge_server.Server.Online.{handle_online_request}
use kinbridge_server.Server.Tcp.{TcpOutcome, handle_tcp}

-- What the stream yields: a frame of bytes, or a WebSocket message of another kind, which is
-- skipped. The list of frames ends where the loop ends by itself: a timeout, an error or the close.
pub data Frame : Type 0 where
  binary : Bytes → Frame
  skipped : Frame

-- `others` is what the other tasks do to the shared state while this one waits for the frame.
pub record Arrival : Type 0 where
  pub ctx : Ctx
  pub others : Shared → Shared
  pub frame : Frame

or_else : SocketAddr → Option SocketAddr → SocketAddr
or_else addr none = addr
or_else addr (some a) = a

module _ (env : Env) where
  -- The address that a proxy names in X-Real-IP or X-Forwarded-For takes the peer's place.
  unfoldable pub real_addr : SocketAddr → Option String → SocketAddr
  unfolding or_else contains_char
  real_addr addr none = addr
  real_addr addr (some ip) =
      if contains_char b'.' ip
      then or_else addr (env.parse_addr (append ip ":0"))
      else or_else addr (env.parse_addr (append "[" (append ip "]:0")))

  next_frame : TcpOutcome → (Option Sink → Shared → Option Sink × Shared) → Option Sink × Shared
  next_frame (true, sink, s) go_on = go_on sink s
  next_frame (false, sink, s) go_on = (sink, s)

  read_frame : Local → String → Bool → SocketAddr → Ctx → Frame → Option Sink → Shared → TcpOutcome
  unfolding handle_tcp
  read_frame l key ws addr ctx (binary bytes) sink s = handle_tcp env ctx l key ws addr bytes sink s
  read_frame l key ws addr ctx skipped sink s = (true, sink, s)

  -- The loop returns the sink that it still owns, and the state.
  unfoldable pub read_frames :
      Local
      → String
      → Bool
      → SocketAddr
      → List Arrival
      → Option Sink
      → Shared
      → Option Sink × Shared
  unfolding read_frame next_frame
  read_frames l key ws addr [] sink s = (sink, s)
  read_frames l key ws addr (a ∷ rest) sink s =
      next_frame (read_frame l key ws addr a.ctx a.frame sink (a.others s))
        (read_frames l key ws addr rest)

  -- A sink that was handed over is dropped from `tcp_punch` when its connection ends.
  close : SocketAddr → Option Sink × Shared → Shared
  unfolding remove
  close addr (some sink, s) = s
  close addr (none, s) = record s { tcp_punch = remove (env.try_into_v4 addr) s.tcp_punch }

  -- Only the WebSocket handshake has headers.
  unfoldable pub connection_addr : Bool → SocketAddr → Option String → SocketAddr
  unfolding real_addr
  connection_addr true addr real_ip = real_addr addr real_ip
  connection_addr false addr real_ip = addr

  unfoldable pub handle_listener_inner :
      Local → String → Bool → SocketAddr → Option String → Sink → List Arrival → Shared → Shared
  unfolding read_frames close connection_addr
  handle_listener_inner l key ws peer real_ip sink arrivals s =
      let addr = connection_addr ws peer real_ip in
      close addr (read_frames l key ws addr arrivals (some sink) s)

  -- handle_listener2, for an address that is no loopback address: what is written back, if anything.
  listener2_message : Ctx → SocketAddr → Message → PeerMap → Option Message
  unfolding handle_online_request
  listener2_message ctx addr (test_nat_request serial) pm =
      some (test_nat_response (record { port = addr.port; cu = none }))
  listener2_message ctx addr (online_request peers) pm = some (handle_online_request ctx pm peers)
  listener2_message ctx addr m pm = none

  listener2_parsed : Ctx → SocketAddr → Option Message → PeerMap → Option Message
  unfolding listener2_message
  listener2_parsed ctx addr (some m) pm = listener2_message ctx addr m pm
  listener2_parsed ctx addr none pm = none

  unfoldable pub handle_listener2 : Ctx → SocketAddr → Bytes → PeerMap → Option Message
  unfolding listener2_parsed
  handle_listener2 ctx addr bytes pm = listener2_parsed ctx addr (env.parse_from_bytes bytes) pm
