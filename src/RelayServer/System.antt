-- ===== src/RelayServer/System.antt =====
-- The relay server as a whole: connections, the tasks that serve them and the operator's commands,
-- interleaved in any order. `asked` records what connections asked for, and serves statements only.
pub mod Pairs
use kinbridge_server.Prelude.{
  ℕ, Bool, String, List, [], ◌∷◌, Option, none, some, ◌≡◌, get_elem?, remove_at, string_eq,
}
use kinbridge_server.Net.{SocketAddr}
use kinbridge_server.Env.{Env}
use kinbridge_server.Message.{Bytes, Message, RequestRelay, request_relay}
use kinbridge_server.Server.Connection.{connection_addr}
use kinbridge_server.RelayServer.{
  Stream, Tables, Progress, closed, relaying, must_wait, arrive, wait, expire, relay_ended,
}
use kinbridge_server.RelayServer.Commands.{Floats, Operated, check_cmd}
use kinbridge_server.RelayServer.Start.{enter_loop}
use kinbridge_server.RelayServer.Access.{
  Access, operator, blocked, served, handle_connection, usage_id, relay_terms,
}
use kinbridge_server.RelayServer.Transfer.{
  Terms, Moment, Pick, Transfer, Outcome, going, begin_transfer, relay_round,
}

pub record Asked : Type 0 where
  pub number : ℕ
  pub uuid : String
  pub licence_key : String

-- A task in `relay`.
pub record Relaying : Type 0 where
  pub stream : Stream
  pub peer : Stream
  pub terms : Terms
  pub transfer : Transfer

-- `pending` are the tasks that found no one and have not stored their stream yet, `sleeping` those
-- that have, by their uuids.
pub record Hbbr : Type 0 where
  pub operated : Operated
  pub pending : List (String × Stream)
  pub sleeping : List String
  pub running : List Relaying
  pub asked : List Asked

pub record Connection : Type 0 where
  pub stream : Stream
  pub addr : SocketAddr
  pub real_ip : Option String
  pub first_bytes : Bytes
  pub now : ℕ

with_tables : Tables → Hbbr → Hbbr
with_tables t x = record x { operated = record x.operated { tables = t } }

-- The record of a first message, if it is a RequestRelay.
ask : ℕ → Option Message → List Asked → List Asked
ask number (some (request_relay rf)) asked =
    record { number = number; uuid = rf.uuid; licence_key = rf.licence_key } ∷ asked
ask number _ asked = asked

-- Before the first connection.
unfoldable pub listening : Operated → Hbbr
listening s = record { operated = s; pending = []; sleeping = []; running = []; asked = [] }

module _ (env : Env) (floats : Floats) (vars : String → Option String) (key : String) where
  settle : Connection → SocketAddr → Progress × Tables → Hbbr → Hbbr
  unfolding with_tables begin_transfer relay_terms
  settle c addr (closed, t) x = with_tables t x
  settle c addr (must_wait uuid, t) x = record (with_tables t x) {
    pending = (uuid, c.stream) ∷ x.pending;
  }
  settle c addr (relaying stream peer id, t) x = record (with_tables t x) {
    running =
        record {
          stream = stream;
          peer = peer;
          terms = relay_terms env floats x.operated.settings addr;
          transfer = begin_transfer c.now;
        }
        ∷ x.running;
  }

  serve : Connection → Access → Hbbr → Hbbr
  unfolding ask settle arrive usage_id connection_addr
  serve c operator x = x
  serve c blocked x = x
  serve c served x =
      let addr = connection_addr env c.stream.is_ws c.addr c.real_ip in
      settle c addr (arrive env key c.stream (usage_id env addr) c.first_bytes x.operated.tables)
        (record x { asked = ask c.stream.number (env.parse_from_bytes c.first_bytes) x.asked })

  unfoldable pub connect : Connection → Hbbr → Hbbr
  unfolding serve handle_connection
  connect c x = serve c (handle_connection env c.stream.is_ws c.addr x.operated.blocklist) x

  -- A round of the i-th relay that leaves it going.
  unfoldable pub relay_goes_on : ℕ → Relaying → Moment → Pick → Hbbr → Hbbr
  unfolding relay_round with_tables
  relay_goes_on i r m p x =
      let round = relay_round r.terms m p r.transfer x.operated.tables.usage in
      record (with_tables (record x.operated.tables { usage = round.2 }) x) {
        running = record r { transfer = round.1 } ∷ remove_at i x.running;
      }

  -- Its end, with the entry of USAGE.
  unfoldable pub relay_stops : ℕ → Relaying → Hbbr → Hbbr
  unfolding relay_ended with_tables
  relay_stops i r x = record (with_tables (relay_ended r.terms.id x.operated.tables) x) {
    running = remove_at i x.running;
  }

  unfoldable pub store_stream : ℕ → String → Stream → Hbbr → Hbbr
  unfolding wait with_tables
  store_stream i uuid stream x = record (with_tables (wait uuid stream x.operated.tables) x) {
    pending = remove_at i x.pending;
    sleeping = uuid ∷ x.sleeping;
  }

  unfoldable pub wake : ℕ → String → Hbbr → Hbbr
  unfolding expire with_tables
  wake i uuid x = record (with_tables (expire uuid x.operated.tables) x) {
    sleeping = remove_at i x.sleeping;
  }

  pub data Step (x : Hbbr) : Hbbr → Type 0 where
    connected : (c : Connection) → Step x (connect c x)
    stored :
        (i : ℕ) (uuid : String) (stream : Stream)
        → get_elem? x.pending i ≡ some (uuid, stream)
        → Step x (store_stream i uuid stream x)
    woken : (i : ℕ) (uuid : String) → get_elem? x.sleeping i ≡ some uuid → Step x (wake i uuid x)
    relayed :
        (i : ℕ) (r : Relaying) (m : Moment) (p : Pick)
        → get_elem? x.running i ≡ some r
        → (relay_round r.terms m p r.transfer x.operated.tables.usage).0 ≡ going
        → Step x (relay_goes_on i r m p x)
    stopped : (i : ℕ) (r : Relaying) → get_elem? x.running i ≡ some r → Step x (relay_stops i r x)
    -- After a failure to accept.
    entered : Step x (record x { operated = enter_loop floats vars x.operated })
    commanded :
        (cmd : String) → Step x (record x { operated = (check_cmd floats cmd x.operated).1 })

  pub data Reach (x : Hbbr) : Hbbr → Type 0 where
    here : Reach x x
    next : {y z : Hbbr} → Reach x y → Step y z → Reach x z
