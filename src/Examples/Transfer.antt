-- ===== src/Examples/Transfer.antt =====
-- The theorems on the copying loop of the relay server, at concrete rounds.
use kinbridge_server.Prelude.{
  ℕ, ◌*◌, ◌≡◌, ◌≢◌, refl, true, false, String, List, [], ◌∷◌, none, some, inl, inr, string_eq,
  arith, eq_iff,
}
use kinbridge_server.Dict.{Dict, lookup, contains}
use kinbridge_server.RelayServer.{Usage}
use kinbridge_server.RelayServer.Commands.{Floats}
use kinbridge_server.RelayServer.Transfer.{
  Terms, Moment, Pick, from_peer, from_stream, tick, Transfer, begin_transfer, going, relay_rounds,
}
use kinbridge_server.RelayServer.Transfer.Pipes.{peer_side, Carried, relay_rounds-Carried}
use kinbridge_server.RelayServer.Transfer.Accounts.{Counts, relay_rounds-total}
use kinbridge_server.RelayServer.Transfer.Seconds.{IsAccounted, relay_rounds-IsAccounted}
use kinbridge_server.RelayServer.Transfer.Limits.{relay_rounds-blocked}
use kinbridge_server.RelayServer.Access.{blocked, handle_connection}
use kinbridge_server.RelayServer.Commands.Blocking.{command_text, block_commands}
use kinbridge_server.Net.{IpAddr, SocketAddr, v4, v6, is_loopback}
use kinbridge_server.Env.{Env}
use kinbridge_server.Env.Sample.{sample_env}
use kinbridge_server.RelayServer.Commands.{Operated, check_cmd}
use kinbridge_server.RelayServer.Start.{start}
use kinbridge_server.RelayServer.Access.{served}
use kinbridge_server.Common.Text.{is_whitespace}
use kinbridge_server.Common.Text.Words.{IsWord}

abbrev terms : Terms
terms = record { ip = "a"; id = "a:1"; downgrade_threshold = 88_000 }

-- A time in ms, and the block list.
abbrev moment : ℕ → List String → Moment
moment ms blocklist = record {
  now = ms * 1_000_000;
  blocklist = blocklist;
  blacklist = [];
  downgrade_start_check = 1_800_000;
  send_ok = true;
}

abbrev begun : Transfer
begun = begin_transfer 1_000_000_000

abbrev usage : Dict String Usage
usage = ("a:1", (0, 0, 0, 0)) ∷ []

abbrev picks : List String → List (Moment × Pick)
picks blocklist =
    (moment 1200 blocklist, from_peer (some (1 ∷ 2 ∷ [])))
    ∷ (moment 2500 blocklist, from_stream (some (3 ∷ [])))
    ∷ (moment 2600 blocklist, tick)
    ∷ []

relay_rounds-Carried_example :
    Carried
      (relay_rounds terms (picks []) begun usage).0
      begun.to_peer
      (relay_rounds terms (picks []) begun usage).1.to_peer
      ((3 ∷ []) ∷ [])
relay_rounds-Carried_example = relay_rounds-Carried peer_side terms (picks []) begun usage

relay_rounds-total_example :
    Counts
      (relay_rounds terms (picks []) begun usage).0
      (relay_rounds terms (picks []) begun usage).1.total
      24
unfolding begin_transfer
relay_rounds-total_example = relay_rounds-total terms (picks []) begun usage

begun-IsAccounted : IsAccounted 1_000_000_000 1_000_000_000 terms begun usage
unfolding begin_transfer lookup
begun-IsAccounted = record {
  shown = (refl, refl, omega arith);
  counted = omega arith;
  past = omega arith;
}

relay_rounds-IsAccounted_example :
    IsAccounted 1_000_000_000 2_600_000_000 terms
      (relay_rounds terms (picks []) begun usage).1
      (relay_rounds terms (picks []) begun usage).2
relay_rounds-IsAccounted_example =
    relay_rounds-IsAccounted 1_000_000_000 terms (picks []) 1_000_000_000 begun usage
      (omega arith, (omega arith, (omega arith, tt))) begun-IsAccounted

abbrev slowed : Transfer
slowed = record begun { downgrade = true }

a_is_blocked : contains {A = String} "a" ("a" ∷ []) ≡ true
unfolding contains
a_is_blocked = refl

relay_rounds-blocked_example : (relay_rounds terms (picks ("a" ∷ [])) begun usage).0 ≢ going
unfolding begin_transfer
relay_rounds-blocked_example =
    relay_rounds-blocked terms (picks ("a" ∷ [])) begun usage
      (a_is_blocked, (a_is_blocked, (a_is_blocked, tt))) (inr (inl (omega arith, omega arith)))

-- A client on IPv4 that is seen at an IPv4-mapped address.
abbrev unmapped : SocketAddr → SocketAddr
unmapped a = record { ip = v4 1; port = a.port }

abbrev text_of : IpAddr → String
text_of (v4 n) = "1.1"
text_of (v6 n) = "::"

abbrev env : Env
env = record sample_env { try_into_v4 = unmapped; show_ip = text_of }

abbrev mapped : SocketAddr
mapped = record { ip = v6 5; port = 7 }

-- With no floating-point numbers.
abbrev pub floats : Floats
floats = record {
  parse_f64 = λ s. none;
  is_positive = λ v. true;
  scaled = λ v k. v * k;
  show_ratio = λ n k. "";
  show_mb = λ n. "";
  per_ms = λ sb p. 88_000;
}

abbrev operated : Operated
operated = start floats (λ v. none) none none

is_remote : is_loopback (unmapped mapped).ip ≡ false
unfolding is_loopback
is_remote = refl

word : IsWord "1.1"
unfolding is_whitespace
word = (refl, refl, refl, (refl, refl, refl, (refl, refl, refl, tt)))

block_commands_example :
    (handle_connection env false mapped
        (check_cmd floats (command_text "B" "a" "1.1") operated).1.blocklist
      ≡ blocked)
    × (handle_connection env false mapped
          (check_cmd floats (command_text "B" "r" "1.1") operated).1.blocklist
        ≡ served)
block_commands_example =
    block_commands env floats false mapped operated word (λ e. ground (arith, eq_iff "1.1" ""))
      (λ e. ground (arith, eq_iff "1.1" "all")) is_remote
