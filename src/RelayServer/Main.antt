-- ===== src/RelayServer/Main.antt =====
-- src/hbbr.rs, `main` of hbbr, and the ports that `start` listens on. `relay_port` is hbb_common's
-- RELAY_PORT. The file .env sets variables under their own names.
use kinbridge_server.Prelude.{
  ℕ, ◌+◌, ◌%◌, ◌^◌, String, List, [], ◌∷◌, Option, none, some, ltb, if◌then◌else◌, string_eq,
}
use kinbridge_server.Prelude.Int.{ℤ, pos, as_i32}
use kinbridge_server.Common.Args.{Vars, set_var, or_empty, value_of}
use kinbridge_server.Common.Number.{show_int, parse_i32, parse_u16}

-- `value_of` of the command line, and the general section of .env.
pub record Launch : Type 0 where
  pub env_file : Option (List (String × String))
  pub args : List (String × Option String)

unfoldable pub set_vars : List (String × String) → Vars → Vars
unfolding set_var
set_vars [] vars = vars
set_vars ((k, v) ∷ section) vars = set_vars section (set_var k v vars)

-- A positive PORT is that of hbbs, and hbbr's is the next one.
port_after : ℕ → Option ℤ → ℤ
unfolding as_i32
port_after relay_port (some (pos v)) = if ltb 0 v then as_i32 (v + 1) else pos relay_port
port_after relay_port _ = pos relay_port

env_port : ℕ → Option String → ℤ
unfolding port_after parse_i32
env_port relay_port none = pos relay_port
env_port relay_port (some text) = port_after relay_port (parse_i32 text)

or_text : String → Option String → String
or_text default none = default
or_text default (some v) = v

-- The texts that are passed to `start`: of the port, and the key.
unfoldable pub main : ℕ → Launch → Vars → String × String
unfolding set_vars or_empty env_port or_text value_of show_int
main relay_port launch vars =
    let vars' = set_vars (or_empty launch.env_file) vars in
    (
      or_text (show_int (env_port relay_port (vars' "PORT"))) (value_of "port" launch.args),
      or_text (or_text "" (vars' "KEY")) (value_of "key" launch.args),
    )

ports : Option ℕ → Option (List ℕ)
ports none = none
ports (some port) = some (port ∷ ((port + 2) % 2 ^ 16) ∷ [])

-- `port.parse::<u16>()?`, and `port + 2`, which wraps in a release build.
unfoldable pub listen_ports : String → Option (List ℕ)
unfolding ports parse_u16
listen_ports port = ports (parse_u16 port)
