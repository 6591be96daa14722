-- ===== src/RelayServer/Keys.antt =====
-- src/relay_server.rs, `get_server_sk`: the key that the relay server asks for. It waits for the
-- rendezvous server to write the key files.
pub mod Adopted
use kinbridge_server.Prelude.{
  ℕ, Bool, String, Option, none, some, drop, ◌||◌, ◌==◌, string_eq, if◌then◌else◌,
}
use kinbridge_server.Message.{Bytes}
use kinbridge_server.Common.Keys.{
  Crypto, Disk, Io, Generated, exited, returned, as_secret_key, gen_sk,
}

module _ (c : Crypto) where
  given_key : String → Option Bytes → String
  given_key key none = key
  given_key key (some sk) = c.encode (drop 32 sk)

  -- `none` is the exit of the process.
  take_key : Generated × Disk → Option String × Disk
  take_key (exited, d) = (none, d)
  take_key (returned pk sk, d) = (some pk, d)

  choose_key : Io → ℕ → Disk → String → Option String × Disk
  unfolding take_key gen_sk
  choose_key io i d key =
      if key == "-" || key == "_" then take_key (gen_sk c io i 300 d) else (some key, d)

  unfoldable pub get_server_sk : Io → ℕ → Disk → String → Option String × Disk
  unfolding given_key choose_key as_secret_key
  get_server_sk io i d key = choose_key io i d (given_key key (as_secret_key c (c.decode key)))
