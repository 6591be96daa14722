-- ===== src/Server/System.antt =====
-- The running server: the main loop of `start`, one task for each connection and the operator's
-- commands, interleaved in any order. A task works on its clone of the server, so with any Local, and
-- on the one Shared. `PeerMap::get` holds no lock between its look into the map, its query and its
-- insertion, so these are steps of their own, which come anywhere: an insertion that comes while a
-- handler is in its `get` is such a step before the handler, which then finds the id in the map.
pub mod Ownership
use kinbridge_server.Prelude.{
  ℕ, Bool, String, List, ◌∷◌, Option, none, some, ◌≡◌, get_elem?, remove_at, string_eq,
}
use kinbridge_server.Database.{Row, ok, find_id}
use kinbridge_server.Peers.{get_fetched}
use kinbridge_server.Dict.{remove, lookup}
use kinbridge_server.Net.{SocketAddr, socket_addr_eq}
use kinbridge_server.Env.{Env, Ctx}
use kinbridge_server.Message.{Bytes}
use kinbridge_server.Server.State.{Local, Shared, Sink}
use kinbridge_server.Server.Tcp.{handle_tcp}
use kinbridge_server.Server.Commands.{check_cmd}
use kinbridge_server.Server.Commands.Tables.{Texts}
use kinbridge_server.Server.Loop.{Event, io_step}

-- A `get` under way, of the loop or of a connection: it has found the id missing from the map, or has
-- also read its row.
pub data Get : Type 0 where
  missed : String → Get
  fetched : String → Row → Get

abbrev pub get_id : Get → String
get_id (missed id) = id
get_id (fetched id row) = id

pub record System : Type 0 where
  pub own : Local
  pub shared : Shared
  pub gets : List Get

-- One step. A round that ends with a LoopFailure is followed by a new loop on the same server.
pub data Step (env : Env) (key : String) (x y : System) : Type 0 where
  loop :
      (ctx : Ctx) (e : Event)
      → y.own ≡ (io_step env ctx key e x.own x.shared).1
      → y.shared ≡ (io_step env ctx key e x.own x.shared).2
      → y.gets ≡ x.gets
      → Step env key x y
  frame :
      (ctx : Ctx) (clone : Local) (ws : Bool) (addr : SocketAddr) (bytes : Bytes)
      (sink : Option Sink)
      → y.own ≡ x.own
      → y.shared ≡ (handle_tcp env ctx clone key ws addr bytes sink x.shared).2
      → y.gets ≡ x.gets
      → Step env key x y
  -- The end of a connection whose sink was handed over.
  closed :
      (addr : SocketAddr)
      → y.own ≡ x.own
      → y.shared ≡ record x.shared { tcp_punch = remove (env.try_into_v4 addr) x.shared.tcp_punch }
      → y.gets ≡ x.gets
      → Step env key x y
  -- A command from a loopback address, on the port of the NAT test.
  commanded :
      (texts : Texts) (now : ℕ) (clone : Local) (cmd : String)
      → y.own ≡ x.own
      → y.shared ≡ (check_cmd texts now clone cmd x.shared).1
      → y.gets ≡ x.gets
      → Step env key x y
  misses :
      (id : String)
      → lookup id x.shared.pm.map ≡ none
      → y.own ≡ x.own
      → y.shared ≡ x.shared
      → y.gets ≡ missed id ∷ x.gets
      → Step env key x y
  reads :
      (i : ℕ) (id : String) (row : Row)
      → get_elem? x.gets i ≡ some (missed id)
      → find_id id x.shared.pm.db ≡ some row
      → y.own ≡ x.own
      → y.shared ≡ x.shared
      → y.gets ≡ fetched id row ∷ remove_at i x.gets
      → Step env key x y
  inserts :
      (ctx : Ctx) (i : ℕ) (id : String) (row : Row)
      → get_elem? x.gets i ≡ some (fetched id row)
      → y.own ≡ x.own
      → y.shared ≡ record x.shared { pm = (get_fetched env ctx id (ok (some row)) x.shared.pm).1 }
      → y.gets ≡ remove_at i x.gets
      → Step env key x y
  -- There is no row, or the query fails.
  gives_up :
      (i : ℕ) → y.own ≡ x.own → y.shared ≡ x.shared → y.gets ≡ remove_at i x.gets → Step env key x y

pub data Reach (env : Env) (key : String) (x : System) : System → Type 0 where
  here : Reach env key x x
  next : {y z : System} → Reach env key x y → Step env key y z → Reach env key x z
