-- ===== src/Server/Start/Running.antt =====
-- Every state of a server that was started.
use kinbridge_server.Prelude.{ℕ, String, List, Option, arith, string_eq}
use kinbridge_server.Prelude.Int.{ℤ}
use kinbridge_server.Dict.{lookup}
use kinbridge_server.Database.{Row}
use kinbridge_server.Env.{Env}
use kinbridge_server.Message.{Bytes}
use kinbridge_server.Peers.Valid.{IsValid}
use kinbridge_server.Server.System.{System, Reach}
use kinbridge_server.Server.System.Ownership.{Reach-IsValid}
use kinbridge_server.Server.Start.{Host, start_shared, new_peer_map, start_server}

new_peer_map-IsValid : (now : ℕ) (rows : List Row) → IsValid (new_peer_map now rows)
unfolding new_peer_map lookup
new_peer_map-IsValid now rows = record {
  allocated = λ id r e. ground arith;
  unshared = λ i j r e f. ground arith;
}

-- In every state that the server can reach from its start, whatever its arguments and the rows of its
-- table: an id of the map of peers has an allocated Peer, and no other id has the same one.
pub running-IsValid :
    (env : Env) (host : Host) (vars : String → Option String) (key : String) (serial : ℤ)
    (sk : Option Bytes) (now : ℕ) (rows : List Row) (y : System)
    → Reach env key (start_server env host vars serial sk now rows) y
    → IsValid y.shared.pm
unfolding start_server start_shared
running-IsValid env host vars key serial sk now rows y steps =
    Reach-IsValid env key steps (new_peer_map-IsValid now rows)
