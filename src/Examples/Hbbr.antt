-- ===== src/Examples/Hbbr.antt =====
-- The theorem on the relay server as a whole, at a run of it.
use kinbridge_server.Prelude.{
  ℕ, ◌≡◌, refl, true, false, String, [], Option, none, some, string_eq, get_elem?,
}
use kinbridge_server.Net.{SocketAddr}
use kinbridge_server.Message.{RequestRelay, request_relay}
use kinbridge_server.Env.{Env}
use kinbridge_server.RelayServer.{Stream}
use kinbridge_server.RelayServer.Start.{start, enter_loop}
use kinbridge_server.RelayServer.System.{
  Hbbr, Connection, Relaying, here, next, connected, stored, listening, connect, store_stream,
}
use kinbridge_server.RelayServer.System.Pairs.{SameUuid, relayed_alike}
use kinbridge_server.Examples.{addr_a, addr_b, receiving}
use kinbridge_server.RelayServer.Access.{relay_terms, usage_id}
use kinbridge_server.RelayServer.Transfer.{begin_transfer}
use kinbridge_server.Examples.Transfer.{floats}

abbrev wanted : RequestRelay
wanted = record { id = "b"; uuid = "u"; socket_addr = []; licence_key = "k"; rest = [] }

abbrev env : Env
env = record (receiving (request_relay wanted)) { show_ip = λ ip. "1.1" }

abbrev vars : String → Option String
vars v = none

abbrev connection : ℕ → SocketAddr → Connection
connection number addr = record {
  stream = record { number = number; is_ws = false; raw = false };
  addr = addr;
  real_ip = none;
  first_bytes = [];
  now = 0;
}

abbrev first : Hbbr
first = connect env floats vars "k" (connection 1 addr_a) (listening (start floats vars none none))

abbrev waiting : Hbbr
waiting = store_stream env floats vars "k" 0 "u" (connection 1 addr_a).stream first

abbrev second : Hbbr
second = connect env floats vars "k" (connection 2 addr_b) waiting

first_is_pending : get_elem? first.pending 0 ≡ some ("u", (connection 1 addr_a).stream)
unfolding connect listening start enter_loop
first_is_pending = refl

abbrev raw_stream : ℕ → Stream
raw_stream number = record { number = number; is_ws = false; raw = true }

abbrev relay : Relaying
relay = record {
  stream = raw_stream 2;
  peer = raw_stream 1;
  terms = relay_terms env floats second.operated.settings addr_b;
  transfer = begin_transfer 0;
}

relay_runs : get_elem? second.running 0 ≡ some relay
unfolding connect store_stream listening start enter_loop relay_terms usage_id
relay_runs = refl

relayed_alike_example : SameUuid "k" second.asked relay
relayed_alike_example =
    relayed_alike env floats vars "k" none none second 0 relay
      (next
        (next (next here (connected (connection 1 addr_a)))
          (stored 0 "u" (connection 1 addr_a).stream first_is_pending))
        (connected (connection 2 addr_b)))
      relay_runs
