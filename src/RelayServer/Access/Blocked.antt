-- ===== src/RelayServer/Access/Blocked.antt =====
-- Which addresses the block list reaches.
use kinbridge_server.Prelude.{ℕ, ◌≡◌, Bool, true, false, String, string_eq, arith}
use kinbridge_server.Dict.{Dict, contains}
use kinbridge_server.Net.{SocketAddr, is_loopback}
use kinbridge_server.Env.{Env}
use kinbridge_server.RelayServer.{Usage}
use kinbridge_server.RelayServer.Commands.{Floats, Settings}
use kinbridge_server.RelayServer.Transfer.{Moment, Transfer, going, check_second}
use kinbridge_server.RelayServer.Access.{blocked, handle_connection, relay_terms}

-- The list is asked for the IPv4 form of a new connection's address, and for the address as it is
-- during a relay: where these differ as texts and only the first is in the list, a new connection is
-- refused, and a running relay goes on.
pub mapped_goes_on :
    (env : Env) (floats : Floats) (t : Settings) (ws : Bool) (addr : SocketAddr) (m : Moment)
    (n : ℕ) (r : Transfer) (usage : Dict String Usage)
    → is_loopback (env.try_into_v4 addr).ip ≡ false
    → contains (env.show_ip (env.try_into_v4 addr).ip) m.blocklist ≡ true
    → contains (env.show_ip addr.ip) m.blocklist ≡ false
    → (handle_connection env ws addr m.blocklist ≡ blocked)
      × ((check_second (relay_terms env floats t addr) m n r usage).0 ≡ going)
unfolding handle_connection check_second relay_terms
mapped_goes_on env floats t ws addr m n r usage l b o = ground arith
