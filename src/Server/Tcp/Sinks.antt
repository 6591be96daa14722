-- ===== src/Server/Tcp/Sinks.antt =====
-- The stored sinks: a request over TCP waits in `tcp_punch`, and the answer of B finds it there.
use kinbridge_server.Prelude.{
  ◌≡◌, ap, ◌∙◌, sym, false, [], ◌∷◌, ◌++◌, Option, none, some, string_eq, arith,
}
use kinbridge_server.Dict.{lookup, remove}
use kinbridge_server.Dict.Laws.{lookup-insert_self, lookup-remove_self}
use kinbridge_server.Net.{SocketAddr, socket_addr_eq}
use kinbridge_server.Env.{Env, Ctx, MangleLaws}
use kinbridge_server.Message.{Message, PunchHoleSent, punch_hole_response}
use kinbridge_server.Server.State.{Local, Shared, Sink}
use kinbridge_server.Server.Send.{send_to_tcp_sync, send_to_tcp, send_to_sink}
use kinbridge_server.Server.Forward.{get_pk, enum_value, handle_hole_sent}
use kinbridge_server.Server.Tcp.{park}

send_to_sink-some :
    (o : Option Sink) (m : Message) (sink : Sink) (s : Shared)
    → o ≡ some sink
    → ((send_to_sink o m s).tcp_sent ≡ s.tcp_sent ++ (sink, m) ∷ [])
      × ((send_to_sink o m s).tcp_punch ≡ s.tcp_punch)
unfolding send_to_sink
send_to_sink-some none m sink s e = cc
send_to_sink-some (some k) m sink s e = ground arith

-- A stored sink takes one message: it is written to, and is no longer stored.
pub send_to_tcp_sync-stored :
    (env : Env) (m : Message) (addr : SocketAddr) (sink : Sink) (s : Shared)
    → lookup (env.try_into_v4 addr) s.tcp_punch ≡ some sink
    → ((send_to_tcp_sync env m addr s).tcp_sent ≡ s.tcp_sent ++ (sink, m) ∷ [])
      × (lookup (env.try_into_v4 addr) (send_to_tcp_sync env m addr s).tcp_punch ≡ none)
unfolding send_to_tcp_sync send_to_sink
send_to_tcp_sync-stored env m addr sink s e =
    let key : SocketAddr = env.try_into_v4 addr in
    let sent =
      send_to_sink-some (lookup key s.tcp_punch) m sink
        (record s { tcp_punch = remove key s.tcp_punch }) e in
    (sent.0, ap (lookup key) sent.1 ∙ lookup-remove_self key s.tcp_punch)

send_to_tcp_sync-at :
    (env : Env) (m : Message) (addr key : SocketAddr) (sink : Sink) (s : Shared)
    → env.try_into_v4 addr ≡ key
    → lookup key s.tcp_punch ≡ some sink
    → ((send_to_tcp_sync env m addr s).tcp_sent ≡ s.tcp_sent ++ (sink, m) ∷ [])
      × (lookup key (send_to_tcp_sync env m addr s).tcp_punch ≡ none)
send_to_tcp_sync-at env m addr key sink s h e =
    let sent = send_to_tcp_sync-stored env m addr sink s (ap (λ k. lookup k s.tcp_punch) h ∙ e) in
    (sent.0, ap (λ k. lookup k (send_to_tcp_sync env m addr s).tcp_punch) (sym h) ∙ sent.1)

-- With no sink stored for the address, the message is dropped.
pub send_to_tcp_sync-missing :
    (env : Env) (m : Message) (addr : SocketAddr) (s : Shared)
    → lookup (env.try_into_v4 addr) s.tcp_punch ≡ none
    → (send_to_tcp_sync env m addr s).tcp_sent ≡ s.tcp_sent
unfolding send_to_tcp_sync send_to_sink
send_to_tcp_sync-missing env m addr s e = rw (e, send_to_sink)

-- A second sink parked for the same address replaces the first: what is then sent to the address
-- goes into the second.
pub park_twice :
    (env : Env) (m : Message) (addr : SocketAddr) (first second : Sink) (s : Shared)
    → (send_to_tcp_sync env m addr
        (park env (some second) addr (park env (some first) addr s))).tcp_sent
      ≡ s.tcp_sent ++ (second, m) ∷ []
unfolding park
park_twice env m addr first second s =
    (send_to_tcp_sync-stored env m addr second _
      (lookup-insert_self (env.try_into_v4 addr) second _)).0

-- If a sink is stored under A's address, a PunchHoleSent that B sends over TCP, with the encoding of
-- A's address in it, reaches A through that sink, with B's address and what `get_pk` gives for the
-- id in it, and the sink is stored no longer; by the laws of the mangling of addresses.
pub hole_sent_reaches :
    (env : Env)
    → MangleLaws env
    → (ctx : Ctx) (l : Local) (phs : PunchHoleSent) (a b : SocketAddr) (sink : Sink) (s : Shared)
    → lookup (env.try_into_v4 a) s.tcp_punch ≡ some sink
    → phs.socket_addr ≡ env.encode a
    → let after = (handle_hole_sent env ctx l phs b false s).1 in
      (after.tcp_sent
        ≡ s.tcp_sent
          ++ (
            sink,
            punch_hole_response (record {
              socket_addr = env.encode b;
              pk = (get_pk env ctx l phs.version phs.id s.pm).0;
              failure = none;
              relay_server = phs.relay_server;
              nat_type = enum_value phs.nat_type;
              is_local = false;
            }),
          )
            ∷ [])
      × (lookup (env.try_into_v4 a) after.tcp_punch ≡ none)
unfolding handle_hole_sent send_to_tcp
hole_sent_reaches env laws ctx l phs a b sink s e h =
    let key_eq : env.try_into_v4 (env.decode phs.socket_addr) ≡ env.try_into_v4 a =
      ap env.try_into_v4 (ap env.decode h ∙ laws.decode-encode a) ∙ laws.try_into_v4_idem a in
    send_to_tcp_sync-at env _ (env.decode phs.socket_addr) (env.try_into_v4 a) sink
      (record s { pm = (get_pk env ctx l phs.version phs.id s.pm).1 }) key_eq e
