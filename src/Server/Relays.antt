-- ===== src/Server/Relays.antt =====
-- The choice of a relay server, the list of them, and the test for the local network.
pub mod Rotation
use kinbridge_server.Prelude.{
  ℕ, ◌+◌, ◌%◌, ◌^◌, Bool, true, false, not, ◌&&◌, String, List, [], ◌∷◌, Option, some, none, length,
  get_or, if◌then◌else◌, string_eq, ◌==◌,
}
use kinbridge_server.Net.{IpAddr, SocketAddr, v4, v6, to_ipv4}
use kinbridge_server.Env.{Env}
use kinbridge_server.Server.State.{Local, Shared}

-- The server and the counter afterwards. `servers[i]` with i out of range would panic; `get_or`
-- gives the empty text there, and get_relay_server-Mem shows that this does not happen.
unfoldable pub get_relay_server : List String → ℕ → String × ℕ
get_relay_server [] rotation = ("", rotation)
get_relay_server (s ∷ []) rotation = (s, rotation)
get_relay_server (s ∷ t ∷ rest) rotation =
    (get_or (s ∷ t ∷ rest) (rotation % length (s ∷ t ∷ rest)) "", (rotation + 1) % 2 ^ 64)

in_network : (ℕ → Bool) → Option ℕ → Bool
in_network network (some a) = network a
in_network network none = false

is_lan_ip : Option (ℕ → Bool) → IpAddr → Bool
unfolding in_network to_ipv4
is_lan_ip none ip = false
is_lan_ip (some network) (v4 a) = network a
is_lan_ip (some network) (v6 a) = in_network network (to_ipv4 a)

unfoldable pub is_lan : Local → SocketAddr → Bool
unfolding is_lan_ip
is_lan l addr = is_lan_ip l.inner.mask addr.ip
