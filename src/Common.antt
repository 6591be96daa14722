-- ===== src/Common.antt =====
-- src/common.rs: the lists of servers in the arguments.
pub mod Text
pub mod Number
pub mod Servers
pub mod Keys
pub mod Args
use Prim.Native.String.{String, ◌++◌ as append}
use kinbridge_server.Prelude.{
  Bool, true, false, not, ◌&&◌, List, [], ◌∷◌, Option, some, none, if◌then◌else◌, ◌==◌, string_eq,
}
use kinbridge_server.Net.{SocketAddr}
use kinbridge_server.Env.{Env}
use Text.{split, contains_char}

-- What a resolution yields, if it yields an address: `?.next().context("")`.
first_addr : Option (List SocketAddr) → Option SocketAddr
first_addr none = none
first_addr (some []) = none
first_addr (some (a ∷ rest)) = some a

is_ok : Option SocketAddr → Bool
is_ok none = false
is_ok (some a) = true

module _ (env : Env) where
  -- A host without a port is resolved with port 0.
  unfoldable pub test_if_valid_server : String → Option SocketAddr
  unfolding first_addr contains_char
  test_if_valid_server host =
      if contains_char b':' host
      then first_addr (env.to_socket_addrs host)
      else first_addr (env.to_socket_addrs (append host ":0"))

  -- `!x.is_empty() && test_if_valid_server(x, tag).is_ok()`.
  unfoldable pub is_server : String → Bool
  unfolding test_if_valid_server is_ok
  is_server x = not (x == "") && is_ok (test_if_valid_server x)

  -- An iterator's `filter`, on servers.
  unfoldable pub keep_servers : List String → List String
  unfolding is_server
  keep_servers [] = []
  keep_servers (x ∷ xs) = let rest = keep_servers xs in if is_server x then x ∷ rest else rest

  unfoldable pub get_servers : String → List String
  unfolding keep_servers split
  get_servers s = keep_servers (split b',' s)
