-- ===== src/Server/State.antt =====
-- The state of the rendezvous server. `self.clone()` copies the Arcs: what stands in Local is
-- replaced as a whole (`self.inner = Arc::new(..)`) and so differs from clone to clone, what stands
-- in Shared is seen by all. The channel `tx`, and what the sockets have sent, are lists, oldest first.
use kinbridge_server.Prelude.{ℕ, Bool, String, List, Option}
use kinbridge_server.Prelude.Int.{ℤ}
use kinbridge_server.Dict.{Dict}
use kinbridge_server.Net.{SocketAddr}
use kinbridge_server.Message.{Bytes, Message}
use kinbridge_server.Blocker.{IpBlockMap}
use kinbridge_server.Peers.{PeerMap}

-- The write half of a TCP or WebSocket connection, by a number.
pub data Sink : Type 0 where
  tcp_stream ws : ℕ → Sink

pub data Data : Type 0 where
  msg : Message → SocketAddr → Data
  relay_servers0 : String → Data
  relay_servers : List String → Data

pub record PunchReqEntry : Type 0 where
  pub tm : ℕ
  pub from_ip : String
  pub to_ip : String
  pub to_id : String

-- `mask` is a network by its test of an IPv4 address.
pub record Inner : Type 0 where
  pub serial : ℤ
  pub version : String
  pub software_url : String
  pub mask : Option (ℕ → Bool)
  pub local_ip : String
  pub sk : Option Bytes

pub record Local : Type 0 where
  pub inner : Inner
  pub relay_servers : List String
  pub relay_servers0 : List String
  pub rendezvous_servers : List String

-- (Instant, HashMap<String, i32>).
pub record IpChange : Type 0 where
  pub tm : ℕ
  pub ips : Dict String ℕ

pub record Shared : Type 0 where
  pub tcp_punch : Dict SocketAddr Sink
  pub pm : PeerMap
  pub tx : List Data
  pub ip_blocker : IpBlockMap
  pub ip_changes : Dict String IpChange
  pub punch_reqs : List PunchReqEntry
  pub rotation_relay_server : ℕ
  pub always_use_relay : Bool
  pub udp_sent : List (Message × SocketAddr)
  pub tcp_sent : List (Sink × Message)
