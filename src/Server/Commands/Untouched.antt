-- ===== src/Server/Commands/Untouched.antt =====
-- The commands and the map of peers.
use kinbridge_server.Prelude.{ℕ, ◌≡◌, refl, String, List, [], ◌∷◌, Option, none, some}
use kinbridge_server.Net.{IpAddr}
use kinbridge_server.Common.Text.{words}
use kinbridge_server.Server.State.{Local, Shared}
use kinbridge_server.Server.Send.{send_tx}
use kinbridge_server.Server.Commands.Tables.{Texts}
use kinbridge_server.Server.Commands.{
  Command, help, relay_servers, ip_blocker, ip_changes, punch_requests, always_use_relay, test_geo,
  if_parsed, always_cmd, relays_cmd, choose, second_ip, geo_cmd, execute, run_words, check_cmd,
}

module _ (texts : Texts) where
  if_parsed-pm :
      (o : Option IpAddr) (x : String × Shared) (s : Shared)
      → x.1.pm ≡ s.pm
      → (if_parsed o x s).1.pm ≡ s.pm
  unfolding if_parsed
  if_parsed-pm none x s e = refl
  if_parsed-pm (some ip) x s e = e

  second_ip-pm :
      (l : Local) (args : List String) (s : Shared) → (second_ip texts l args s).1.pm ≡ s.pm
  unfolding second_ip choose
  second_ip-pm l [] s = refl
  second_ip-pm l (b ∷ rest) s = if_parsed-pm (texts.parse_ip b) (choose texts l s) s refl

  geo_cmd-pm : (l : Local) (args : List String) (s : Shared) → (geo_cmd texts l args s).1.pm ≡ s.pm
  unfolding geo_cmd
  geo_cmd-pm l [] s = refl
  geo_cmd-pm l (a ∷ rest) s =
      if_parsed-pm (texts.parse_ip a) (second_ip texts l rest s) s (second_ip-pm l rest s)

  always_cmd-pm : (args : List String) (s : Shared) → (always_cmd texts args s).1.pm ≡ s.pm
  unfolding always_cmd send_tx
  always_cmd-pm [] s = refl
  always_cmd-pm (rs ∷ rest) s = refl

  relays_cmd-pm :
      (l : Local) (args : List String) (s : Shared) → (relays_cmd texts l args s).1.pm ≡ s.pm
  unfolding relays_cmd send_tx
  relays_cmd-pm l [] s = refl
  relays_cmd-pm l (rs ∷ rest) s = refl

  execute-pm :
      (now : ℕ) (l : Local) (c : Option Command) (args : List String) (s : Shared)
      → (execute texts now l c args s).1.pm ≡ s.pm
  unfolding execute
  execute-pm now l none args s = refl
  execute-pm now l (some help) args s = refl
  execute-pm now l (some relay_servers) args s = relays_cmd-pm l args s
  execute-pm now l (some ip_blocker) args s = refl
  execute-pm now l (some ip_changes) args s = refl
  execute-pm now l (some punch_requests) args s = refl
  execute-pm now l (some always_use_relay) args s = always_cmd-pm args s
  execute-pm now l (some test_geo) args s = geo_cmd-pm l args s

  run_words-pm :
      (now : ℕ) (l : Local) (ws : List String) (s : Shared)
      → (run_words texts now l ws s).1.pm ≡ s.pm
  unfolding run_words
  run_words-pm now l [] s = refl
  run_words-pm now l (w ∷ args) s = execute-pm now l _ args s

  pub check_cmd-pm :
      (now : ℕ) (l : Local) (cmd : String) (s : Shared) → (check_cmd texts now l cmd s).1.pm ≡ s.pm
  unfolding check_cmd
  check_cmd-pm now l cmd s = run_words-pm now l (words cmd) s
