-- ===== src/Examples/Commands.antt =====
-- The theorems on the operator's commands of the rendezvous server, at concrete tables.
use kinbridge_server.Prelude.{
  ℕ, Bool, false, List, String, eq_iff, ◌≡◌, refl, true, [], ◌∷◌, none, arith, string_eq,
}
use kinbridge_server.Dict.{lookup}
use kinbridge_server.Env.Sample.{sample_env}
use kinbridge_server.Blocker.{IpBlockMap, check_ip_blocker}
use kinbridge_server.Blocker.Cleanup.{IsUnique, FromOthers, after_attempts, clean_blocker-answers}
use kinbridge_server.Server.Loop.{io_step, received}
use kinbridge_server.Server.Relays.{get_relay_server}
use kinbridge_server.Server.Commands.{check_cmd}
use kinbridge_server.Server.Commands.Tables.{Texts, clean_blocker}
use kinbridge_server.Server.Commands.Relays.{always_relay_empties}
use kinbridge_server.Examples.{ctx, own, shared}

abbrev texts : Texts
texts = record {
  parse_ip = λ s. none;
  debug_text = λ s. s;
  debug_map = λ d. "";
  calendar = λ now tm. "";
}

-- One address whose times are over after a day, and one that was just seen.
abbrev attempts : IpBlockMap
attempts =
    ("1.1", record { count = 31; count_tm = 0; ids = "b" ∷ []; ids_tm = 0 })
    ∷ ("1.2", record { count = 31; count_tm = 90_000_000_000_000; ids = []; ids_tm = 0 })
    ∷ []

attempts-IsUnique : IsUnique attempts
unfolding lookup
attempts-IsUnique = (refl, (refl, tt))

-- In between an attempt of the other address.
abbrev others : List (ℕ × String × String)
others = (90_001_500_000_000, "1.2", "d") ∷ []

false≢true : ◌≡◌ {A = Bool} false true → ⊥
false≢true e = cc

from_others : FromOthers "1.1" others
from_others = ((λ e. false≢true ((eq_iff "1.2" "1.1").1 e)), tt)

clean_blocker-answers_example :
    (check_ip_blocker 90_002_000_000_000 "1.1" "c"
      (after_attempts others (clean_blocker 90_001_000_000_000 attempts))).0
    ≡ (check_ip_blocker 90_002_000_000_000 "1.1" "c" (after_attempts others attempts)).0
clean_blocker-answers_example =
    clean_blocker-answers 90_001_000_000_000 90_002_000_000_000 "1.1" "c" others attempts
      attempts-IsUnique (omega arith) from_others

always_relay_empties_example :
    let after = (check_cmd texts 0 own "aur Y" shared).1 in
    let round = io_step sample_env ctx "" received own after in
    (round.2.always_use_relay ≡ true)
    × (round.1.relay_servers ≡ [])
    × ((get_relay_server round.1.relay_servers round.2.rotation_relay_server).0 ≡ "")
always_relay_empties_example =
    always_relay_empties sample_env texts ctx 0 "" own own shared refl refl
