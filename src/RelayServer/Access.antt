-- ===== src/RelayServer/Access.antt =====
-- src/relay_server.rs, `handle_connection` and `make_pair`: who may give commands, who is refused, and
-- the terms on which a relay begins.
pub mod Blocked
use Prim.Native.String.{◌++◌ as append}
use kinbridge_server.Prelude.{
  ℕ, Bool, true, false, not, ◌&&◌, String, List, if◌then◌else◌, string_eq,
}
use kinbridge_server.Dict.{contains}
use kinbridge_server.Net.{SocketAddr, is_loopback}
use kinbridge_server.Common.Number.{show_nat}
use kinbridge_server.Env.{Env}
use kinbridge_server.RelayServer.Commands.{Floats, Settings}
use kinbridge_server.RelayServer.Transfer.{Terms}

pub data Access : Type 0 where
  operator blocked served : Access

module _ (env : Env) where
  unfoldable pub handle_connection : Bool → SocketAddr → List String → Access
  unfolding is_loopback contains
  handle_connection ws addr blocklist =
      let ip = (env.try_into_v4 addr).ip in
      if not ws && is_loopback ip
      then operator
      else if contains (env.show_ip ip) blocklist
      then blocked
      else served

  -- `format!("{}:{}", addr.ip(), addr.port())`.
  unfoldable pub usage_id : SocketAddr → String
  unfolding show_nat
  usage_id addr = append (env.show_ip addr.ip) (append ":" (show_nat addr.port))

  -- What `relay` computes before its loop.
  unfoldable pub relay_terms : Floats → Settings → SocketAddr → Terms
  unfolding usage_id
  relay_terms floats t addr = record {
    ip = env.show_ip addr.ip;
    id = usage_id addr;
    downgrade_threshold = floats.per_ms t.single_bandwidth t.downgrade_threshold_100;
  }
