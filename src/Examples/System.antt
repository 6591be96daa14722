-- ===== src/Examples/System.antt =====
-- The theorems on whole runs, at concrete states.
use kinbridge_server.Prelude.Int.{pos}
use kinbridge_server.Peers.Valid.{IsValid}
use kinbridge_server.Server.Start.{Host, start_server}
use kinbridge_server.Server.Start.Running.{running-IsValid}
use kinbridge_server.Prelude.{
  String, Option, ◌≡◌, refl, true, false, ◌∷◌, none, some, is_empty, string_eq, [],
}
use kinbridge_server.Net.{socket_addr_eq}
use kinbridge_server.Dict.{lookup}
use kinbridge_server.Message.{RegisterPk, RequestRelay, register_pk, request_relay}
use kinbridge_server.Env.{Env}
use kinbridge_server.Peers.{insert_alloc}
use kinbridge_server.Server.State.{ws, msg}
use kinbridge_server.Server.Loop.{datagram, io_step}
use kinbridge_server.Server.Tcp.{handle_tcp}
use kinbridge_server.Server.Loop.Delivery.{rounds, rounds-deliver}
use kinbridge_server.Server.Connection.{binary, Arrival, connection_addr, handle_listener_inner}
use kinbridge_server.Server.Connection.Life.{waiting_is_dropped}
use kinbridge_server.Server.System.{missed, misses, System, here, next, loop, frame}
use kinbridge_server.Server.System.Ownership.{uuid_is_kept}
use kinbridge_server.Examples.{
  ctx, addr_a, addr_b, localhost, own, shared, peers-IsValid, receiving,
}

-- A stranger tries to take the id "b" over.
abbrev stranger : RegisterPk
stranger = record { id = "b"; uuid = 6 ∷ []; pk = 6 ∷ [] }

abbrev env : Env
env = receiving (register_pk stranger)

abbrev before : System
before = record { own = own; shared = shared; gets = [] }

abbrev after_datagram : System
after_datagram = record {
  own = (io_step env ctx "" (datagram [] addr_a) before.own before.shared).1;
  shared = (io_step env ctx "" (datagram [] addr_a) before.own before.shared).2;
  gets = [];
}

abbrev after_frame : System
after_frame = record {
  own = after_datagram.own;
  shared = (handle_tcp env ctx own "" true addr_b [] (some (ws 8)) after_datagram.shared).2;
  gets = [];
}

-- A connection asks for an id that is not in memory.
abbrev after_miss : System
after_miss = record after_frame { gets = missed "zz" ∷ [] }

zz_is_missing : lookup "zz" after_frame.shared.pm.map ≡ none
unfolding lookup insert_alloc handle_tcp io_step
zz_is_missing = refl

b_in_memory : lookup "b" shared.pm.map ≡ some 0
unfolding lookup insert_alloc
b_in_memory = refl

b_has_uuid : is_empty (shared.pm.cell 0).uuid ≡ false
unfolding insert_alloc
b_has_uuid = refl

uuid_is_kept_example :
    (lookup "b" after_miss.shared.pm.map ≡ some 0)
    × ((after_miss.shared.pm.cell 0).uuid ≡ (shared.pm.cell 0).uuid)
uuid_is_kept_example =
    uuid_is_kept env "" before after_miss "b" 0 peers-IsValid b_in_memory b_has_uuid tt (
      next
        (next (next here (loop ctx (datagram [] addr_a) refl refl refl))
          (frame ctx own true addr_b [] (some (ws 8)) refl refl refl))
        (misses "zz" zz_is_missing refl refl refl))

-- A request over TCP, whose connection then ends.
abbrev relay_wanted : RequestRelay
relay_wanted = record { id = "b"; uuid = "u"; socket_addr = []; licence_key = ""; rest = [] }

abbrev proxied : Env
proxied = record (receiving (request_relay relay_wanted)) { parse_addr = λ s. some addr_a }

abbrev arrival : Arrival
arrival = record { ctx = ctx; others = λ s. s; frame = binary [] }

waiting_is_dropped_example :
    lookup
      (proxied.try_into_v4 (connection_addr proxied true localhost (some "1.2.3.4")))
      (handle_listener_inner proxied own "" true localhost
        (some "1.2.3.4")
        (ws 8)
        (arrival ∷ arrival ∷ [])
        shared).tcp_punch
    ≡ none
waiting_is_dropped_example =
    waiting_is_dropped proxied own "" true localhost (some "1.2.3.4") arrival []
      (request_relay relay_wanted) refl refl refl (arrival ∷ []) (ws 8) shared

rounds-deliver_example :
    rounds proxied "" (ctx ∷ []) own (record shared {
      tx = msg (request_relay relay_wanted) addr_b ∷ msg (register_pk stranger) addr_a ∷ [];
    })
    ≡ (
      none,
      own,
      record shared {
        tx = msg (register_pk stranger) addr_a ∷ [];
        udp_sent = (request_relay relay_wanted, addr_b) ∷ [];
      },
    )
rounds-deliver_example =
    rounds-deliver proxied "" (ctx ∷ []) ((request_relay relay_wanted, addr_b) ∷ []) own
      (record shared {
        tx = msg (request_relay relay_wanted) addr_b ∷ msg (register_pk stranger) addr_a ∷ [];
      })
      (msg (register_pk stranger) addr_a ∷ []) refl (refl, tt) refl

-- A server without arguments, to which a stranger registers.
abbrev pub host : Host
host = record { version_of = λ s. ""; parse_mask = λ s. none; local_ip = none }

abbrev no_vars : String → Option String
no_vars v = none

abbrev started : System
started = start_server env host no_vars (pos 0) none 0 []

abbrev registered : System
registered = record {
  own = (io_step env ctx "" (datagram [] addr_a) started.own started.shared).1;
  shared = (io_step env ctx "" (datagram [] addr_a) started.own started.shared).2;
  gets = [];
}

running-IsValid_example : IsValid registered.shared.pm
unfolding start_server
running-IsValid_example =
    running-IsValid env host no_vars "" (pos 0) none 0 [] registered
      (next here (loop ctx (datagram [] addr_a) refl refl refl))
