-- ===== src/Startup/Ports.antt =====
-- The ports of the two servers of one deployment.
use kinbridge_server.Prelude.{
  ℕ, ◌+◌, ◌-◌, ◌%◌, ◌^◌, ◌≤◌, ◌≡◌, refl, true, false, String, List, [], ◌∷◌, Option, none, some,
  arith, ltb, string_eq,
}
use kinbridge_server.Prelude.Int.{pos, as_i32}
use kinbridge_server.Common.Args.{Vars, value_of, or_empty}
use kinbridge_server.Common.Number.{show_int, parse_i32}
use kinbridge_server.Common.Number.Printed.{parse_u16-show_nat}
use kinbridge_server.Server.Start.{get_arg_or}
use kinbridge_server.Server.Main.{main, listens, listen_ports}
use kinbridge_server.RelayServer.Main.{set_vars, main as relay_main, listen_ports as relay_ports}

module _ (p : ℕ) (lo : 3 ≤ p) (hi : p ≤ 65532) where
  hbbs_ports :
      (rendezvous_port : ℕ) (vars : Vars) (text : String)
      → vars "PORT" ≡ some text
      → parse_i32 text ≡ some (pos p)
      → listens (main rendezvous_port vars) ≡ some ((p - 1) ∷ p ∷ (p + 2) ∷ [])
  unfolding main listens listen_ports get_arg_or
  hbbs_ports rendezvous_port vars text e q =
      let valid : ltb p 3 ≡ false = ground arith in
      let nat : (p - 1) % 2 ^ 16 ≡ p - 1 = omega arith in
      let own : p % 2 ^ 16 ≡ p = omega arith in
      let ws : (p + 2) % 2 ^ 16 ≡ p + 2 = omega arith in rw (e, q, valid) (rw (nat, ws, own) refl)

  next_port : as_i32 (p + 1) ≡ pos (p + 1)
  unfolding as_i32
  next_port = ground arith

  hbbr_ports :
      (relay_port : ℕ) (vars : Vars) (args : List (String × Option String)) (text : String)
      → vars "PORT" ≡ some text
      → parse_i32 text ≡ some (pos p)
      → value_of "port" args ≡ none
      → relay_ports (relay_main relay_port (record { env_file = none; args = args }) vars).0
        ≡ some ((p + 1) ∷ (p + 3) ∷ [])
  unfolding relay_main relay_ports show_int set_vars or_empty
  hbbr_ports relay_port vars args text e q n =
      let positive : ltb 0 p ≡ true = ground arith in
      let ws : (p + 1 + 2) % 2 ^ 16 ≡ p + 3 = omega arith in
      rw (e, q, n, positive, next_port, parse_u16-show_nat (p + 1) (omega arith)) (rw ws refl)

  -- With one variable PORT from 3 to 65532 for both servers, and no port on hbbr's command line, none
  -- of the five ports wraps, and they are five neighbours: hbbs takes one less, the port itself and
  -- two more, hbbr one and three more.
  pub ports_side_by_side :
      (rendezvous_port relay_port : ℕ) (vars : Vars) (args : List (String × Option String))
      (text : String)
      → vars "PORT" ≡ some text
      → parse_i32 text ≡ some (pos p)
      → value_of "port" args ≡ none
      → (listens (main rendezvous_port vars) ≡ some ((p - 1) ∷ p ∷ (p + 2) ∷ []))
        × (relay_ports (relay_main relay_port (record { env_file = none; args = args }) vars).0
            ≡ some ((p + 1) ∷ (p + 3) ∷ []))
  ports_side_by_side rendezvous_port relay_port vars args text e q n =
      (hbbs_ports rendezvous_port vars text e q, hbbr_ports relay_port vars args text e q n)
