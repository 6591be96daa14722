-- ===== src/Examples/Startup.antt =====
-- The theorems on arguments and ports, at concrete arguments.
use Prim.Native.Char.{Char}
use kinbridge_server.Prelude.{
  true, List, ◌↔◌, ◌≢◌, ◌≡◌, refl, String, [], ◌∷◌, none, some, arith, if◌then◌else◌, ◌==◌,
  string_eq,
}
use kinbridge_server.Prelude.Int.{pos}
use kinbridge_server.Common.Args.{
  Vars, Launch, init_args, config_section, value_of, given, or_empty,
}
use kinbridge_server.Common.Args.Sources.{or_else, last_value, init_args-precedence}
use kinbridge_server.Common.Number.{parse_i32}
use kinbridge_server.Server.Main.{main, listens}
use kinbridge_server.RelayServer.Main.{main as relay_main, listen_ports as relay_ports}
use kinbridge_server.Server.Start.{start_server}
use kinbridge_server.Server.Start.Unseen.{always_use_relay-unseen}
use kinbridge_server.Server.SelfTest.{
  TestEvent, ticked, received, Testing, test_loop, test_message, heard_at, timed_out,
}
use kinbridge_server.Time.{elapsed_secs}
use kinbridge_server.Env.{Env}
use kinbridge_server.Server.SelfTest.Watchdog.{Overdue, test_loop-Overdue}
use kinbridge_server.Examples.{addr_a, receiving}
use kinbridge_server.Startup.Ports.{ports_side_by_side}
use kinbridge_server.Env.Sample.{sample_env}
use kinbridge_server.Examples.System.{host}

abbrev upper : Char → String
upper c = "?"

-- The port is in the file .env, in the config file and on the command line.
abbrev launch : Launch
launch = record {
  env_file = some (("PORT", "1") ∷ ("ALWAYS_USE_RELAY", "Y") ∷ []);
  load_file = λ file. some (("port", "2") ∷ ("key", "k") ∷ []);
  args = ("config", some "hbbs.conf") ∷ ("port", some "3") ∷ ("key", none) ∷ [];
}

abbrev vars : Vars
vars name = if name == "PORT" then some "21116" else none

init_args-precedence_example :
    init_args upper launch vars "PORT"
    ≡ or_else (last_value upper "PORT" (given launch.args)) (
        or_else
          (last_value upper "PORT" (config_section launch (value_of "config" launch.args)))
          (or_else (last_value upper "PORT" (or_empty launch.env_file)) (vars "PORT")))
init_args-precedence_example = init_args-precedence upper "PORT" launch vars

always_use_relay-unseen_example :
    (start_server sample_env host
      (init_args upper launch vars)
      (pos 0)
      none
      0
      []).shared.always_use_relay
    ≡ (start_server sample_env host vars (pos 0) none 0 []).shared.always_use_relay
always_use_relay-unseen_example =
    always_use_relay-unseen sample_env host upper launch vars (pos 0) none 0 []

read_port : parse_i32 "21116" ≡ some (pos 21116)
unfolding parse_i32
read_port = refl

no_port : value_of "port" [] ≡ none
unfolding value_of
no_port = refl

ports_side_by_side_example :
    (listens (main 21116 vars) ≡ some (21115 ∷ 21116 ∷ 21118 ∷ []))
    × (relay_ports (relay_main 21117 (record { env_file = none; args = [] }) vars).0
        ≡ some (21117 ∷ 21119 ∷ []))
ports_side_by_side_example =
    ports_side_by_side 21116 (omega arith) (omega arith) 21116 21117 vars [] "21116" refl read_port
      no_port

-- An answer comes at second 2, and no further one.
abbrev meeting : List TestEvent
meeting =
    ticked 1_000_000_000 true
    ∷ received 2_000_000_000 []
    ∷ ticked 9_000_000_000 true
    ∷ ticked 15_000_000_000 true
    ∷ []

abbrev begun : Testing
begun = record { last_time_recv = 0; messages = [] }

abbrev answered : Env
answered = receiving test_message

test_loop-Overdue_example :
    Overdue answered 0 meeting ↔ ((test_loop answered addr_a meeting begun).0 ≢ none)
test_loop-Overdue_example = test_loop-Overdue answered addr_a meeting begun

test_times_out : (test_loop answered addr_a meeting begun).0 ≡ some timed_out
unfolding test_loop heard_at elapsed_secs
test_times_out = refl
