-- ===== src/Server/Loop.antt =====
-- `io_loop`, one round for each event, and `check_relay_servers`, whose result comes by the channel.
pub mod Owner
pub mod Delivery
use kinbridge_server.Prelude.{
  ℕ, Bool, true, false, String, List, [], ◌∷◌, Option, some, none, ltb, length, get_elem?,
  if◌then◌else◌,
}
use kinbridge_server.Net.{SocketAddr}
use kinbridge_server.Common.{get_servers}
use kinbridge_server.Env.{Env, Ctx}
use kinbridge_server.Message.{Bytes}
use kinbridge_server.Server.State.{Local, Shared, Data, msg, relay_servers0, relay_servers}
use kinbridge_server.Server.Send.{Status, done, failed, send_udp, send_tx}
use kinbridge_server.Server.Udp.{handle_udp, Outcome}

pub data LoopFailure : Type 0 where
  udp_socket listener3 listener2 listener : LoopFailure

-- What `select!` can pick. An accepted connection is served by a task of its own, so the loop itself
-- does nothing with it; `timer` carries which relay servers answer, and the task that dials them
-- queues its message at once.
pub data Event : Type 0 where
  timer : List ℕ → Event
  received : Event
  datagram : Bytes → SocketAddr → Event
  datagram_failed no_datagram : Event
  accepted : Event
  accept_failed : LoopFailure → Event

or_skip : Option String → List String → List String
or_skip none xs = xs
or_skip (some x) xs = x ∷ xs

-- Each server of the list is dialled by a task of its own; `answers` are the tasks that connect
-- within the timeout, by their places in the list, in the order in which they do.
reachable_servers : List ℕ → List String → List String
unfolding or_skip
reachable_servers [] rs0 = []
reachable_servers (i ∷ answers) rs0 = or_skip (get_elem? rs0 i) (reachable_servers answers rs0)

report_servers : List String → Shared → Shared
unfolding send_tx
report_servers [] s = s
report_servers (x ∷ xs) s = send_tx (relay_servers (x ∷ xs)) s

unfoldable pub check_relay_servers : List ℕ → List String → Shared → Shared
unfolding reachable_servers report_servers
check_relay_servers answers rs0 s = report_servers (reachable_servers answers rs0) s

-- The failure that ends the loop, if any, and the state.
abbrev pub Round : Type 0
Round = Option LoopFailure × Local × Shared

after_udp : Outcome → Round
after_udp (done, l, s) = (none, l, s)
after_udp (failed, l, s) = (some udp_socket, l, s)

module _ (env : Env) where
  unfoldable pub parse_relay_servers : String → Local → Local
  unfolding get_servers
  parse_relay_servers rs l = record l {
    relay_servers0 = get_servers env rs;
    relay_servers = get_servers env rs;
  }

  -- `allow_err!(socket.send(..))`: a failure to send is only logged.
  handle_data : Ctx → Local → Data → Shared → Round
  unfolding parse_relay_servers send_udp
  handle_data ctx l (msg m addr) s = (none, l, (send_udp ctx m addr s).1)
  handle_data ctx l (relay_servers0 rs) s = (none, parse_relay_servers rs l, s)
  handle_data ctx l (relay_servers rs) s = (none, record l { relay_servers = rs }, s)

  receive : Ctx → Local → List Data → Shared → Round
  unfolding handle_data
  receive ctx l [] s = (none, l, s)
  receive ctx l (d ∷ queue) s = handle_data ctx l d (record s { tx = queue })

  unfoldable pub io_step : Ctx → String → Event → Local → Shared → Round
  unfolding check_relay_servers receive after_udp handle_udp
  io_step ctx key (timer answers) l s = (
    none,
    l,
    if ltb 1 (length l.relay_servers0) then check_relay_servers answers l.relay_servers0 s else s,
  )
  io_step ctx key received l s = receive ctx l s.tx s
  io_step ctx key (datagram bytes addr) l s = after_udp (handle_udp env ctx l key addr bytes s)
  io_step ctx key datagram_failed l s = (some udp_socket, l, s)
  io_step ctx key no_datagram l s = (none, l, s)
  io_step ctx key accepted l s = (none, l, s)
  io_step ctx key (accept_failed f) l s = (some f, l, s)
