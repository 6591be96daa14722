-- ===== src/Examples/Requests.antt =====
-- The theorems on the handlers, at concrete requests.
use kinbridge_server.Prelude.{
  if◌then◌else◌, ◌+◌, ◌/◌, ◌≡◌, refl, true, false, String, List, [], ◌∷◌, ◌++◌, map, length,
  get_or as elem_or, none, some, inl, inr, nat_eq, string_eq, list_eq, arith,
}
use kinbridge_server.Dict.{lookup}
use kinbridge_server.Net.{socket_addr_eq}
use kinbridge_server.Time.{get_expired_time, elapsed_secs, elapsed, as_millis}
use kinbridge_server.Env.{Ctx}
use kinbridge_server.Env.Sample.{sample_env, sample_env-MangleLaws, sample_ctx}
use kinbridge_server.Message.{
  register_pk_response, pk_ok, PunchHoleRequest, PunchHoleSent, RegisterPk, known, symmetric,
  punch_hole_response, uuid_mismatch, too_frequent,
}
use kinbridge_server.Peers.{write, default_peer, get, get_or, update_pk, insert_alloc}
use kinbridge_server.Server.State.{Shared, tcp_stream}
use kinbridge_server.Server.Send.{done}
use kinbridge_server.Blocker.{check_ip_blocker}
use kinbridge_server.Server.Register.{handle_register_pk, next_reg_pk, register_found}
use kinbridge_server.Server.Register.Stranger.{IsStranger, stranger_refused}
use kinbridge_server.Server.Register.Unstored.{ok_though_not_stored}
use kinbridge_server.Server.Punch.{handle_punch_hole_request}
use kinbridge_server.Server.Punch.Answer.{verdict, Follows, punch-Follows}
use kinbridge_server.Server.Punch.Reach.{registered_is_reachable, long_gone_is_reached}
use kinbridge_server.Server.Forward.{get_pk, enum_value, handle_hole_sent}
use kinbridge_server.Server.Online.{is_online, online_states}
use kinbridge_server.Server.Online.Marks.{read_bit}
use kinbridge_server.Server.Online.Bits.{online_states-read_bit}
use kinbridge_server.Server.Tcp.Sinks.{hole_sent_reaches}
use kinbridge_server.Examples.{ctx, addr_a, addr_b, own, shared, peers, no_peers, peer_b}

abbrev request : PunchHoleRequest
request = record { id = "c"; nat_type = known symmetric; licence_key = "k" }

-- "c" registers from addr_b at the time of ctx, and is asked for nine seconds later.
abbrev later : Ctx
later = sample_ctx 1_019_000_000_000

abbrev with_c : Shared
with_c =
    let found = get_or sample_env ctx "c" peers in
    record shared {
      pm = (update_pk sample_env ctx "c" found.0 addr_b (3 ∷ []) (4 ∷ []) "1.1" found.1).1;
    }

registered_is_reachable_example :
    (handle_punch_hole_request sample_env later own addr_a request "k" true with_c).0.1
    ≡ some addr_b
registered_is_reachable_example =
    registered_is_reachable sample_env ctx addr_b (3 ∷ []) (4 ∷ []) "1.1" later own addr_a request
      "k" true peers with_c refl refl (omega arith) (inr refl)

punch-Follows_example :
    Follows
      (verdict later (get sample_env later "c" with_c.pm))
      with_c
      (handle_punch_hole_request sample_env later own addr_a request "k" false with_c)
punch-Follows_example =
    punch-Follows sample_env later own addr_a request false "k" with_c (inr refl)

-- 25 days later.
abbrev long_later : Ctx
long_later = record later { now = ctx.now + 2_160_000_000_000_000 }

c_in_memory : lookup "c" with_c.pm.map ≡ some 1
unfolding lookup get_or update_pk
c_in_memory = refl

long_gone_is_reached_example :
    (handle_punch_hole_request sample_env long_later own addr_a request "k" true with_c).0.1
    ≡ some addr_b
unfolding elapsed as_millis get_or update_pk
long_gone_is_reached_example =
    long_gone_is_reached sample_env long_later own addr_a request "k" true 1 with_c c_in_memory
      (omega arith) (omega arith) (inr refl)

abbrev asked : List String
asked = "a" ∷ "b" ∷ []

online_states-read_bit_example :
    (length (online_states ctx peers asked) ≡ (length asked + 7) / 8)
    × (read_bit 1 (online_states ctx peers asked)
        ≡ elem_or (map (is_online ctx peers) asked) 1 false)
online_states-read_bit_example = online_states-read_bit ctx peers asked 1

abbrev stranger : RegisterPk
stranger = record { id = "b12345"; uuid = 6 ∷ []; pk = 6 ∷ [] }

abbrev with_b12345 : Shared
with_b12345 = record shared { pm = (insert_alloc "b12345" peer_b no_peers).1 }

b12345_in_memory : lookup "b12345" with_b12345.pm.map ≡ some 0
unfolding lookup insert_alloc
b12345_in_memory = refl

b12345-IsStranger : IsStranger sample_env addr_a stranger (with_b12345.pm.cell 0)
unfolding insert_alloc
b12345-IsStranger = (refl, inl refl)

stranger_refused_example :
    let attempt =
      check_ip_blocker ctx.now (sample_env.show_ip addr_a.ip) "b12345" with_b12345.ip_blocker in
    handle_register_pk sample_env ctx addr_a stranger with_b12345 ≡ (
      done,
      record with_b12345 {
        ip_blocker = attempt.1;
        udp_sent =
            (register_pk_response (if attempt.0 then uuid_mismatch else too_frequent), addr_a) ∷ [];
      },
    )
stranger_refused_example =
    stranger_refused sample_env ctx addr_a stranger 0 with_b12345 refl refl refl (omega arith)
      b12345_in_memory b12345-IsStranger

abbrev sent_by_b : PunchHoleSent
sent_by_b = record {
  socket_addr = sample_env.encode addr_a;
  id = "b";
  relay_server = "r1";
  nat_type = known symmetric;
  version = "1";
}

hole_sent_reaches_example :
    let after = (handle_hole_sent sample_env ctx own sent_by_b addr_b false shared).1 in
    (after.tcp_sent
      ≡ shared.tcp_sent
        ++ (
          tcp_stream 4,
          punch_hole_response (record {
            socket_addr = sample_env.encode addr_b;
            pk = (get_pk sample_env ctx own "1" "b" shared.pm).0;
            failure = none;
            relay_server = "r1";
            nat_type = enum_value (known symmetric);
            is_local = false;
          }),
        )
          ∷ [])
    × (lookup (sample_env.try_into_v4 addr_a) after.tcp_punch ≡ none)
unfolding lookup
hole_sent_reaches_example =
    hole_sent_reaches sample_env sample_env-MangleLaws ctx own sent_by_b addr_a addr_b
      (tcp_stream 4) shared refl refl

abbrev failing : Ctx
failing = record ctx { db_up = false }

abbrev with_new : Shared
with_new = record shared { pm = write 0 (default_peer 1_000_000_000_000) peers }

ok_though_not_stored_example :
    let after = (register_found sample_env failing addr_a stranger "9.9" 0 with_new).1 in
    (after.udp_sent ≡ [] ++ (register_pk_response pk_ok, addr_a) ∷ []) × (after.pm.db ≡ [])
unfolding write default_peer next_reg_pk get_expired_time insert_alloc elapsed_secs
ok_though_not_stored_example =
    ok_though_not_stored sample_env failing 0 addr_a stranger "9.9"
      (record { count = 1; tm = ctx.now }) with_new refl refl refl refl
