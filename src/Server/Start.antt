-- ===== src/Server/Start.antt =====
-- `start`: the server before its first event, from the arguments. `vars` are the variables of the
-- environment, in which init_args has put the arguments under the names that arg_name gives them.
pub mod Running
pub mod Unseen
use kinbridge_server.Prelude.{ℕ, Bool, String, List, [], Option, none, some, string_eq}
use kinbridge_server.Prelude.Int.{ℤ}
use kinbridge_server.Common.{get_servers}
use kinbridge_server.Common.Text.{is_yes}
use kinbridge_server.Database.{Row}
use kinbridge_server.Env.{Env}
use kinbridge_server.Message.{Bytes}
use kinbridge_server.Peers.{PeerMap, default_peer}
use kinbridge_server.Server.State.{Local, Shared, Inner}
use kinbridge_server.Server.Loop.{parse_relay_servers}
use kinbridge_server.Server.System.{System}

-- hbb_common's get_version_from_url, the parsing of a network (ipnetwork), and the address of this
-- host (local_ip_address), if there is one.
pub record Host : Type 0 where
  pub version_of : String → String
  pub parse_mask : String → Option (ℕ → Bool)
  pub local_ip : Option String

or_text : String → Option String → String
or_text default none = default
or_text default (some v) = v

-- `get_arg_or` and `get_arg`.
unfoldable pub get_arg_or : (String → Option String) → String → String → String
unfolding or_text
get_arg_or vars name default = or_text default (vars name)

-- Asked for only where the argument `mask` is a network.
local_ip_text : Host → (String → Option String) → Option (ℕ → Bool) → String
unfolding get_arg_or or_text
local_ip_text host vars none = ""
local_ip_text host vars (some network) = get_arg_or vars "LOCAL-IP" (or_text "" host.local_ip)

-- PeerMap::new: no peer in memory, and the rows of the table. What the heap holds at addresses that
-- are not allocated is never read.
unfoldable pub new_peer_map : ℕ → List Row → PeerMap
new_peer_map now rows = record { cell = λ r. default_peer now; next = 0; map = []; db = rows }

module _ (env : Env) (host : Host) (vars : String → Option String) where
  start_inner : ℤ → Option Bytes → Inner
  unfolding get_arg_or local_ip_text
  start_inner serial sk =
      let software_url = get_arg_or vars "SOFTWARE-URL" "" in
      let mask = host.parse_mask (get_arg_or vars "MASK" "") in
      record {
        serial = serial;
        version = host.version_of software_url;
        software_url = software_url;
        mask = mask;
        local_ip = local_ip_text host vars mask;
        sk = sk;
      }

  start_local : ℤ → Option Bytes → Local
  unfolding start_inner get_servers parse_relay_servers get_arg_or
  start_local serial sk = parse_relay_servers env (get_arg_or vars "RELAY-SERVERS" "") (record {
    inner = start_inner serial sk;
    relay_servers = [];
    relay_servers0 = [];
    rendezvous_servers = get_servers env (get_arg_or vars "RENDEZVOUS-SERVERS" "");
  })

  start_shared : ℕ → List Row → Shared
  unfolding new_peer_map is_yes or_text
  start_shared now rows = record {
    tcp_punch = [];
    pm = new_peer_map now rows;
    tx = [];
    ip_blocker = [];
    ip_changes = [];
    punch_reqs = [];
    rotation_relay_server = 0;
    always_use_relay = is_yes (or_text "" (vars "ALWAYS_USE_RELAY"));
    udp_sent = [];
    tcp_sent = [];
  }

  -- `sk` comes from get_server_sk.
  unfoldable pub start_server : ℤ → Option Bytes → ℕ → List Row → System
  unfolding start_local start_shared
  start_server serial sk now rows = record {
    own = start_local serial sk;
    shared = start_shared now rows;
    gets = [];
  }
