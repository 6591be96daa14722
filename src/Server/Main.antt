-- ===== src/Server/Main.antt =====
-- src/main.rs, `main` of hbbs, and the ports that `start` listens on. `rendezvous_port` is
-- hbb_common's RENDEZVOUS_PORT.
use kinbridge_server.Prelude.{
  ℕ, ◌+◌, ◌-◌, ◌%◌, ◌^◌, String, List, [], ◌∷◌, Option, none, some, ltb, if◌then◌else◌, string_eq,
}
use kinbridge_server.Prelude.Int.{ℤ, pos, negsuc}
use kinbridge_server.Common.Args.{Vars}
use kinbridge_server.Common.Number.{show_nat, parse_i32, parse_usize}
use kinbridge_server.Server.Start.{get_arg_or}

-- What main passes to `start`.
pub record Arguments : Type 0 where
  pub port : ℕ
  pub serial : ℤ
  pub key : String
  pub rmem : ℕ

pub data Launched : Type 0 where
  -- The port is no number.
  unreadable : Launched
  invalid_port : Launched
  launched : Arguments → Launched

or_number : ℤ → Option ℤ → ℤ
or_number default none = default
or_number default (some n) = n

or_size : ℕ → Option ℕ → ℕ
or_size default none = default
or_size default (some n) = n

read_arguments : Vars → ℕ → Arguments
unfolding get_arg_or or_number or_size parse_i32 parse_usize
read_arguments vars port = record {
  port = port;
  serial = or_number (pos 0) (parse_i32 (get_arg_or vars "SERIAL" ""));
  key = get_arg_or vars "KEY" "-";
  rmem = or_size 0 (parse_usize (get_arg_or vars "RMEM" ""));
}

check_port : Vars → Option ℤ → Launched
unfolding read_arguments
check_port vars none = unreadable
check_port vars (some (negsuc n)) = invalid_port
check_port vars (some (pos port)) =
    if ltb port 3 then invalid_port else launched (read_arguments vars port)

-- After init_args.
unfoldable pub main : ℕ → Vars → Launched
unfolding check_port get_arg_or show_nat parse_i32
main rendezvous_port vars =
    check_port vars (parse_i32 (get_arg_or vars "PORT" (show_nat rendezvous_port)))

-- `port as _`, to a u16: of the NAT test, of TCP and UDP, and of WebSockets. The sum wraps at 2^32, in
-- a release build, and so it has these low bits too.
unfoldable pub listen_ports : Arguments → List ℕ
listen_ports a = ((a.port - 1) % 2 ^ 16) ∷ (a.port % 2 ^ 16) ∷ ((a.port + 2) % 2 ^ 16) ∷ []

-- The ports of a server that was launched.
unfoldable pub listens : Launched → Option (List ℕ)
unfolding listen_ports
listens unreadable = none
listens invalid_port = none
listens (launched a) = some (listen_ports a)
