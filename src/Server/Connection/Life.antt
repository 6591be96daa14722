-- ===== src/Server/Connection/Life.antt =====
-- The end of a connection: what it leaves behind in `tcp_punch`.
use kinbridge_server.Prelude.{
  ◌≡◌, refl, Bool, true, false, String, List, [], ◌∷◌, Option, none, some, ◌⊎◌, inl, inr,
}
use Prim.Native.String.{◌++◌ as append}
use kinbridge_server.Common.Text.{contains_char}
use kinbridge_server.Dict.{lookup}
use kinbridge_server.Dict.Laws.{lookup-remove_self}
use kinbridge_server.Net.{SocketAddr, socket_addr_eq}
use kinbridge_server.Env.{Env, Ctx}
use kinbridge_server.Message.{
  Bytes, Message, punch_hole_request, request_relay, relay_response, punch_hole_sent, local_addr,
  test_nat_request, register_pk,
}
use kinbridge_server.Server.State.{Local, Shared, Sink}
use kinbridge_server.Server.Tcp.{handle_tcp, handle_tcp_message, handle_parsed, TcpOutcome}
use kinbridge_server.Server.Connection.{
  Frame, Arrival, binary, skipped, read_frames, read_frame, next_frame, close, connection_addr,
  real_addr, or_else, handle_listener_inner,
}

-- A request by which A waits for an answer.
abbrev pub IsWaiting : Message → Type 0
IsWaiting (punch_hole_request ph) = true ≡ true
IsWaiting (request_relay rf) = true ≡ true
IsWaiting m = true ≡ false

module _ (env : Env) (l : Local) (key : String) (ws : Bool) (addr : SocketAddr) where
  message-none :
      (ctx : Ctx) (m : Message) (s : Shared)
      → (handle_tcp_message env ctx l key ws addr m none s).1 ≡ none
  unfolding handle_tcp_message
  message-none ctx (punch_hole_request ph) s = refl
  message-none ctx (request_relay rf) s = refl
  message-none ctx (relay_response rr) s = refl
  message-none ctx (punch_hole_sent phs) s = refl
  message-none ctx (local_addr la) s = refl
  message-none ctx (test_nat_request serial) s = refl
  message-none ctx (register_pk rk) s = refl
  message-none ctx m s = refl

  parsed-none :
      (ctx : Ctx) (o : Option Message) (s : Shared)
      → (handle_parsed env ctx l key ws addr o none s).1 ≡ none
  unfolding handle_parsed
  parsed-none ctx none s = refl
  parsed-none ctx (some m) s = message-none ctx m s

  frame-none :
      (ctx : Ctx) (f : Frame) (s : Shared) → (read_frame env l key ws addr ctx f none s).1 ≡ none
  unfolding read_frame handle_tcp
  frame-none ctx (binary bytes) s = parsed-none ctx (env.parse_from_bytes bytes) s
  frame-none ctx skipped s = refl

  next_frame-none :
      (t : TcpOutcome) (go_on : Option Sink → Shared → Option Sink × Shared)
      → t.1 ≡ none
      → ((s : Shared) → (go_on none s).0 ≡ none)
      → (next_frame env t go_on).0 ≡ none
  unfolding next_frame
  next_frame-none (true, none, s) go_on e h = h s
  next_frame-none (false, none, s) go_on e h = refl
  next_frame-none (b, some k, s) go_on e h = cc

  -- A sink that was handed over does not come back.
  read_frames-none :
      (arrivals : List Arrival) (s : Shared)
      → (read_frames env l key ws addr arrivals none s).0 ≡ none
  unfolding read_frames
  read_frames-none [] s = refl
  read_frames-none (a ∷ rest) s =
      next_frame-none _ (read_frames env l key ws addr rest) (frame-none a.ctx a.frame (a.others s))
        (read_frames-none rest)

  waiting-none :
      (ctx : Ctx) (m : Message) (sink : Option Sink) (s : Shared)
      → IsWaiting m
      → (handle_tcp_message env ctx l key ws addr m sink s).1 ≡ none
  unfolding handle_tcp_message
  waiting-none ctx (punch_hole_request ph) sink s w = refl
  waiting-none ctx (request_relay rf) sink s w = refl
  waiting-none ctx m sink s w = cc

  close-none :
      (p : Option Sink × Shared)
      → p.0 ≡ none
      → lookup (env.try_into_v4 addr) (close env addr p).tcp_punch ≡ none
  unfolding close
  close-none (none, s) e = lookup-remove_self (env.try_into_v4 addr) s.tcp_punch
  close-none (some k, s) e = cc

module _ (env : Env) (l : Local) (key : String) (ws : Bool) where
  -- When a connection whose first frame was a PunchHoleRequest or a RequestRelay has ended, whatever
  -- else it sent and whatever the other tasks did, no sink is stored for its address, which is the
  -- one that a proxy named in the headers, if it is a WebSocket connection.
  pub waiting_is_dropped :
      (peer : SocketAddr) (real_ip : Option String) (a : Arrival) (bytes : Bytes) (m : Message)
      → a.frame ≡ binary bytes
      → env.parse_from_bytes bytes ≡ some m
      → IsWaiting m
      → (rest : List Arrival) (sink : Sink) (s : Shared)
      → lookup
          (env.try_into_v4 (connection_addr env ws peer real_ip))
          (handle_listener_inner env l key ws peer real_ip sink (a ∷ rest) s).tcp_punch
        ≡ none
  unfolding handle_listener_inner read_frames read_frame handle_tcp handle_parsed
  waiting_is_dropped peer real_ip a bytes m f p w rest sink s =
      let addr = connection_addr env ws peer real_ip in
      let first = read_frame env l key ws addr a.ctx a.frame (some sink) (a.others s) in
      let go_on = read_frames env l key ws addr rest in
      close-none env l key ws addr (next_frame env first go_on) (
        next_frame-none env l key ws addr first go_on
          (rw (f, p) (waiting-none env l key ws addr a.ctx m (some sink) (a.others s) w))
          (read_frames-none env l key ws addr rest))

-- Two WebSocket clients for whom the proxies name the same IP address have the same address,
-- whatever their own addresses are.
pub same_header_same_addr :
    (env : Env) (p q a : SocketAddr) (ip : String)
    → (contains_char b'.' ip ≡ true) × (env.parse_addr (append ip ":0") ≡ some a)
      ⊎ (contains_char b'.' ip ≡ false) × (env.parse_addr (append "[" (append ip "]:0")) ≡ some a)
    → connection_addr env true p (some ip) ≡ connection_addr env true q (some ip)
unfolding connection_addr real_addr or_else
same_header_same_addr env p q a ip (inl (d, e)) = rw (d, e) refl
same_header_same_addr env p q a ip (inr (d, e)) = rw (d, e) refl
