-- ===== src/Startup.antt =====
-- The two servers of one deployment, started in the same directory.
pub mod Ports
use kinbridge_server.Prelude.{ℕ, ◌≡◌, true, String, some}
use kinbridge_server.Message.{Bytes}
use kinbridge_server.Common.Keys.{Crypto, CryptoLaws, Disk, Io, AsksForFile}
use kinbridge_server.Common.Keys.Stored.{keys_persist}
use kinbridge_server.Server.Keys.{keyed, get_server_sk}
use kinbridge_server.Server.Keys.FromFile.{rendezvous_generated}
use kinbridge_server.RelayServer.Keys.{get_server_sk as relay_server_sk}
use kinbridge_server.RelayServer.Keys.Adopted.{relay_generated}

-- Where both servers are told to use the key files, and the rendezvous server started with a secret
-- key, the relay server that starts later in the same directory, and can open and read the file,
-- asks for the same key, and leaves the files as they are.
pub servers_share_key :
    (c : Crypto)
    → CryptoLaws c
    → (io later_io : Io) (i later_i : ℕ) (d after : Disk) (arg relay_arg key : String) (sk : Bytes)
    → AsksForFile c arg
    → AsksForFile c relay_arg
    → get_server_sk c io i d arg ≡ (keyed key (some sk), after)
    → later_io.opens ≡ true
    → later_io.reads ≡ true
    → relay_server_sk c later_io later_i after relay_arg ≡ (some key, after)
servers_share_key c laws io later_io i later_i d after arg relay_arg key sk a b e o r =
    relay_generated c later_io later_i after after relay_arg key sk b (
      keys_persist c laws io later_io i later_i 0 300 d after key sk
        (rendezvous_generated c io i d after arg key sk a e) o r)
