-- ===== src/Server/Start/Unseen.antt =====
-- What the file .env and the config file cannot set.
use Prim.Native.Char.{Char}
use kinbridge_server.Prelude.{ℕ, ◌≡◌, refl, ap, true, String, List, Option}
use kinbridge_server.Prelude.Int.{ℤ}
use kinbridge_server.Common.Args.{Vars, Launch, init_args}
use kinbridge_server.Common.Args.Sources.{init_args-unseen}
use kinbridge_server.Common.Text.{contains_char, is_yes}
use kinbridge_server.Database.{Row}
use kinbridge_server.Env.{Env}
use kinbridge_server.Message.{Bytes}
use kinbridge_server.Server.Start.{Host, or_text, start_shared, start_server}

has_underline : contains_char b'_' "ALWAYS_USE_RELAY" ≡ true
unfolding contains_char
has_underline = refl

-- Whether a server starts with ALWAYS_USE_RELAY is decided by the variables that it is started with:
-- whatever the file .env, the config file and the command line say, init_args changes nothing in it.
pub always_use_relay-unseen :
    (env : Env) (host : Host) (upper : Char → String) (launch : Launch) (vars : Vars) (serial : ℤ)
    (sk : Option Bytes) (now : ℕ) (rows : List Row)
    → (start_server env host
        (init_args upper launch vars)
        serial
        sk
        now
        rows).shared.always_use_relay
      ≡ (start_server env host vars serial sk now rows).shared.always_use_relay
unfolding start_server start_shared
always_use_relay-unseen env host upper launch vars serial sk now rows =
    ap (λ o. is_yes (or_text "" o))
      (init_args-unseen upper "ALWAYS_USE_RELAY" has_underline launch vars)
