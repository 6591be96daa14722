-- ===== src/Examples.antt =====
-- Concrete inputs, at which each theorem with hypotheses is applied: a peer "b" at address `addr_b`,
-- registered at `registered_at`, and a client at `addr_a`.
pub mod System
pub mod Requests
pub mod Limits
pub mod Relay
pub mod Transfer
pub mod Hbbr
pub mod Keys
pub mod Commands
pub mod Startup
pub mod Utils
pub mod Ui
use kinbridge_server.Prelude.{
  ℕ, ◌≡◌, Bool, true, false, String, List, [], ◌∷◌, Option, none, some, arith, string_eq,
}
use kinbridge_server.Dict.{lookup}
use kinbridge_server.Prelude.Int.{pos}
use kinbridge_server.Net.{SocketAddr, v4}
use kinbridge_server.Message.{Bytes, Message}
use kinbridge_server.Env.{Env, Ctx}
use kinbridge_server.Env.Sample.{sample_env, sample_ctx}
use kinbridge_server.Peers.{Peer, PeerMap, insert_alloc}
use kinbridge_server.Peers.Valid.{IsValid, insert_alloc-IsValid}
use kinbridge_server.Server.State.{Local, Shared, Sink, tcp_stream}

abbrev pub registered_at : ℕ
registered_at = 1_000_000_000_000

abbrev pub ctx : Ctx
ctx = sample_ctx 1_010_000_000_000

abbrev pub addr_a : SocketAddr
addr_a = record { ip = v4 3_232_235_777; port = 5000 }

abbrev pub addr_b : SocketAddr
addr_b = record { ip = v4 3_232_235_778; port = 6000 }

abbrev pub localhost : SocketAddr
localhost = record { ip = v4 2_130_706_433; port = 7000 }

abbrev pub peer_b : Peer
peer_b = record {
  socket_addr = addr_b;
  last_reg_time = registered_at;
  guid = 9 ∷ [];
  uuid = 1 ∷ 2 ∷ [];
  pk = 5 ∷ [];
  info = record { ip = "1.1" };
  reg_pk = record { count = 0; tm = 0 };
}

abbrev pub no_peers : PeerMap
no_peers = record { cell = λ r. peer_b; next = 0; map = []; db = [] }

abbrev pub peers : PeerMap
peers = (insert_alloc "b" peer_b no_peers).1

no_peers-IsValid : IsValid no_peers
unfolding lookup
no_peers-IsValid = record {
  allocated = λ id r e. ground arith;
  unshared = λ i j r e f. ground arith;
}

pub peers-IsValid : IsValid peers
peers-IsValid = insert_alloc-IsValid "b" peer_b no_peers no_peers-IsValid

abbrev pub servers : List String
servers = "r1" ∷ "r2" ∷ "r3" ∷ []

abbrev pub own : Local
own = record {
  inner = record {
    serial = pos 3;
    version = "";
    software_url = "";
    mask = none;
    local_ip = "";
    sk = none;
  };
  relay_servers = servers;
  relay_servers0 = servers;
  rendezvous_servers = [];
}

abbrev pub shared : Shared
shared = record {
  tcp_punch = (addr_a, tcp_stream 4) ∷ [];
  pm = peers;
  tx = [];
  ip_blocker = [];
  ip_changes = [];
  punch_reqs = [];
  rotation_relay_server = 2;
  always_use_relay = false;
  udp_sent = [];
  tcp_sent = [];
}

-- The environment in which every datagram and frame holds the given message.
abbrev pub receiving : Message → Env
receiving m = record sample_env { parse_from_bytes = λ bytes. some m }
