-- ===== src/Server/Keys.antt =====
-- src/rendezvous_server.rs, `get_server_sk`: the key that clients must name, and the secret key that
-- signs, from the argument or from the files of the key pair.
pub mod FromFile
use kinbridge_server.Prelude.{
  ℕ, Bool, String, Option, none, some, drop, ◌||◌, ◌==◌, string_eq, if◌then◌else◌,
}
use kinbridge_server.Message.{Bytes}
use kinbridge_server.Common.Keys.{
  Crypto, Disk, Io, Generated, exited, returned, as_secret_key, gen_sk,
}

pub data ServerKey : Type 0 where
  stopped : ServerKey
  keyed : String → Option Bytes → ServerKey

module _ (c : Crypto) where
  -- An argument that is a secret key stands for its public half.
  given_key : String → Option Bytes → String × Option Bytes
  given_key key none = (key, none)
  given_key key (some sk) = (c.encode (drop 32 sk), some sk)

  -- No key is required where the argument is empty.
  adopt : String → Generated × Disk → ServerKey × Disk
  adopt key (exited, d) = (stopped, d)
  adopt key (returned pk sk, d) = (keyed (if key == "" then key else pk) sk, d)

  choose_key : Io → ℕ → Disk → String × Option Bytes → ServerKey × Disk
  unfolding adopt gen_sk
  choose_key io i d (key, out_sk) =
      if key == "" || key == "-" || key == "_"
      then adopt key (gen_sk c io i 0 d)
      else (keyed key out_sk, d)

  unfoldable pub get_server_sk : Io → ℕ → Disk → String → ServerKey × Disk
  unfolding given_key choose_key as_secret_key
  get_server_sk io i d key = choose_key io i d (given_key key (as_secret_key c (c.decode key)))
