-- ===== src/Server/Punch/Unkeyed.antt =====
-- A key that is asked for and cannot be written.
use kinbridge_server.Prelude.{ℕ, ◌≡◌, refl, Bool, false, String, none, string_eq}
use kinbridge_server.Net.{SocketAddr}
use kinbridge_server.Env.{Env, Ctx}
use kinbridge_server.Message.{PunchHoleRequest}
use kinbridge_server.Common.Keys.{Crypto, Disk, Io, AsksForFile}
use kinbridge_server.Peers.{get}
use kinbridge_server.Server.State.{Local, Shared}
use kinbridge_server.Server.Keys.{keyed, get_server_sk}
use kinbridge_server.Server.Keys.FromFile.{unwritten}
use kinbridge_server.Server.Punch.{punch_peer, handle_punch_hole_request}

-- With the argument "-" or "_" a key is required of the clients. Where there is no key file and none
-- can be created, the server starts all the same, with the empty key, and with that one a request is
-- looked up whatever key it names.
pub lost_key_admits :
    (c : Crypto) (io : Io) (i : ℕ) (d : Disk) (arg : String) (env : Env) (ctx : Ctx) (l : Local)
    (addr : SocketAddr) (ph : PunchHoleRequest) (ws : Bool) (s : Shared)
    → AsksForFile c arg
    → d.secret ≡ none
    → io.creates_public ≡ false
    → (get_server_sk c io i d arg ≡ (keyed "" none, d))
      × (handle_punch_hole_request env ctx l addr ph "" ws s
          ≡ punch_peer env ctx l addr ph ws (get env ctx ph.id s.pm) s)
unfolding handle_punch_hole_request
lost_key_admits c io i d arg env ctx l addr ph ws s a e f = (unwritten c io i d arg a e f, refl)
