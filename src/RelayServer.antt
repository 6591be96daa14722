-- ===== src/RelayServer.antt =====
-- src/relay_server.rs (hbbr), `make_pair_`: how two connections that name the same uuid find each
-- other. The call is split where other tasks can come between: taking a waiting stream, and storing
-- one's own. `relay` is in Transfer.
pub mod Keys
pub mod Pairing
pub mod Transfer
pub mod Access
pub mod Start
pub mod Main
pub mod System
pub mod Commands
use Prim.Native.String.{◌++◌ as append}
use kinbridge_server.Prelude.{
  ℕ, Bool, true, false, not, ◌&&◌, ◌||◌, String, List, [], ◌∷◌, Option, none, some, if◌then◌else◌,
  ◌==◌, string_eq,
}
use kinbridge_server.Dict.{Dict, lookup, insert, remove}
use kinbridge_server.Message.{Bytes, Message, RequestRelay, request_relay}
use kinbridge_server.Env.{Env}

-- A connection, by a number; `raw` is what `set_raw` sets.
pub record Stream : Type 0 where
  pub number : ℕ
  pub is_ws : Bool
  pub raw : Bool

-- (elapsed, total, highest, speed).
abbrev pub Usage : Type 0
Usage = ℕ × ℕ × ℕ × ℕ

-- PEERS and USAGE.
pub record Tables : Type 0 where
  pub peers : Dict String Stream
  pub usage : Dict String Usage

-- Where a call of `make_pair_` is after its first message: ended, about to relay, or waiting.
pub data Progress : Type 0 where
  closed : Progress
  relaying : Stream → Stream → String → Progress
  must_wait : String → Progress

-- `set_raw` of a WebSocket stream does nothing, but it is called only when neither is one.
unfoldable pub set_both_raw : Stream → Stream → String → Progress
set_both_raw stream peer id =
    if not stream.is_ws && not peer.is_ws
    then relaying (record stream { raw = true }) (record peer { raw = true }) id
    else relaying stream peer id

-- After `PEERS.lock().await.remove(&rf.uuid)`; `id` is the text of the address.
pair_with : Stream → String → String → Option Stream → Tables → Progress × Tables
unfolding set_both_raw insert
pair_with stream id uuid none t = (must_wait uuid, t)
pair_with stream id uuid (some peer) t =
    (set_both_raw stream peer id, record t { usage = insert id (0, 0, 0, 0) t.usage })

take_peer : Stream → String → String → Tables → Progress × Tables
unfolding pair_with lookup remove
take_peer stream id uuid t =
    pair_with stream id uuid (lookup uuid t.peers) (record t { peers = remove uuid t.peers })

admit : String → Stream → String → RequestRelay → Tables → Progress × Tables
unfolding take_peer
admit key stream id rf t =
    if not (key == "") && not (rf.licence_key == key)
    then (closed, t)
    else if rf.uuid == ""
    then (closed, t)
    else take_peer stream id rf.uuid t

first_message : String → Stream → String → Option Message → Tables → Progress × Tables
unfolding admit
first_message key stream id (some (request_relay rf)) t = admit key stream id rf t
first_message key stream id _ t = (closed, t)

-- `relay` has ended.
unfoldable pub relay_ended : String → Tables → Tables
unfolding remove
relay_ended id t = record t { usage = remove id t.usage }

-- The first half, up to the look into PEERS.
unfoldable pub arrive : Env → String → Stream → String → Bytes → Tables → Progress × Tables
unfolding first_message
arrive env key stream id bytes t = first_message key stream id (env.parse_from_bytes bytes) t

-- The second half of a call that found no one: the stream is stored,
unfoldable pub wait : String → Stream → Tables → Tables
unfolding insert
wait uuid stream t = record t { peers = insert uuid stream t.peers }

-- and 30 seconds later whatever is stored under the uuid is dropped.
unfoldable pub expire : String → Tables → Tables
unfolding remove
expire uuid t = record t { peers = remove uuid t.peers }
