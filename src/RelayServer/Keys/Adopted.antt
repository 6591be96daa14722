-- ===== src/RelayServer/Keys/Adopted.antt =====
-- The key where the argument asks for the key files.
use kinbridge_server.Prelude.{ℕ, ◌≡◌, refl, String, some, string_eq, inl, inr}
use kinbridge_server.Message.{Bytes}
use kinbridge_server.Common.Keys.{Crypto, Disk, Io, returned, gen_sk, AsksForFile}
use kinbridge_server.RelayServer.Keys.{given_key, take_key, choose_key, get_server_sk}

pub relay_generated :
    (c : Crypto) (io : Io) (i : ℕ) (d after : Disk) (arg key : String) (sk : Bytes)
    → AsksForFile c arg
    → gen_sk c io i 300 d ≡ (returned key (some sk), after)
    → get_server_sk c io i d arg ≡ (some key, after)
unfolding get_server_sk given_key choose_key take_key
relay_generated c io i d after arg key sk (n, inl q) e = rw (n, q, e) refl
relay_generated c io i d after arg key sk (n, inr q) e = rw (n, q, e) refl
