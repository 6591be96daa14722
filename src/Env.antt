-- ===== src/Env.antt =====
-- What the servers call and this repository does not implement: the parameter of the model.
-- hbb_common: the address mangling, `try_into_v4` and the protobuf codec; sodiumoxide: `sign`;
-- serde_json on PeerInfo; the text of an address (std's Display and FromStr) and name resolution.
pub mod Sample
use kinbridge_server.Prelude.{ℕ, ◌≡◌, String, List, Option, some, Bool}
use kinbridge_server.Net.{IpAddr, SocketAddr}
use kinbridge_server.Message.{Bytes, Message}

pub record Env : Type 0 where
  -- AddrMangle::encode and AddrMangle::decode.
  pub encode : SocketAddr → Bytes
  pub decode : Bytes → SocketAddr
  pub try_into_v4 : SocketAddr → SocketAddr
  -- RendezvousMessage::parse_from_bytes.
  pub parse_from_bytes : Bytes → Option Message
  -- `write_to_bytes` of an IdPk, and sign::sign.
  pub id_pk_bytes : String → Bytes → Bytes
  pub sign : Bytes → Bytes → Bytes
  -- serde_json::to_string and from_str of a PeerInfo, which is its `ip`.
  pub info_to_string : String → String
  pub info_from_str : String → Option String
  -- `ip.to_string()` and `text.parse::<SocketAddr>()`.
  pub show_ip : IpAddr → String
  pub parse_addr : String → Option SocketAddr
  -- ToSocketAddrs: `none` is an error, and the list is what the name resolves to.
  pub to_socket_addrs : String → Option (List SocketAddr)

-- Documented behaviour that some theorems rely on, each named where it is used.
pub record MangleLaws (env : Env) : Type 0 where
  -- Decoding gives the encoded address back, an IPv4-mapped one in its IPv4 form.
  pub decode-encode : (a : SocketAddr) → env.decode (env.encode a) ≡ env.try_into_v4 a
  pub try_into_v4_idem : (a : SocketAddr) → env.try_into_v4 (env.try_into_v4 a) ≡ env.try_into_v4 a

-- The texts of two addresses differ.
pub record ShowLaws (env : Env) : Type 0 where
  pub show_ip_inj : (a b : IpAddr) → env.show_ip a ≡ env.show_ip b → a ≡ b

-- What one call reads from its surroundings: the clock (read once for a whole handler), a fresh
-- UUID, whether the database answers, whether an insert or an update is accepted by the keys of the
-- table, and whether the socket accepts what is sent.
pub record Ctx : Type 0 where
  pub now : ℕ
  pub new_guid : Bytes
  pub db_up : Bool
  pub db_accepts : Bool
  pub send_ok : Bool
