-- ===== src/Examples/Relay.antt =====
-- The theorems on the relay server, at concrete connections.
use kinbridge_server.Prelude.{
  ◌≡◌, ◌≢◌, refl, false, String, [], ◌∷◌, none, some, string_eq, arith, eq_iff, inr,
}
use kinbridge_server.Dict.{lookup}
use kinbridge_server.Message.{RequestRelay, request_relay}
use kinbridge_server.Env.{Env}
use kinbridge_server.RelayServer.{Stream, Tables, must_wait, set_both_raw, arrive, wait, expire}
use kinbridge_server.RelayServer.Pairing.{
  IsPaired, IsAdmitted, arrive-pairs, arrive_together, stale_timer,
}
use kinbridge_server.Examples.{receiving}

abbrev wanted : RequestRelay
wanted = record { id = "b"; uuid = "u"; socket_addr = []; licence_key = "k"; rest = [] }

abbrev env : Env
env = receiving (request_relay wanted)

abbrev stream_a : Stream
stream_a = record { number = 1; is_ws = false; raw = false }

abbrev stream_b : Stream
stream_b = record { number = 2; is_ws = false; raw = false }

abbrev tables : Tables
tables = record { peers = ("v", stream_b) ∷ []; usage = [] }

wanted-IsAdmitted : IsAdmitted "k" wanted
wanted-IsAdmitted = (inr refl, (λ e. ground (arith, eq_iff "u" "")))

u_is_free : lookup "u" tables.peers ≡ none
unfolding lookup
u_is_free = refl

arrive-pairs_example :
    let after = arrive env "k" stream_b "b:1" [] (wait "u" stream_a tables) in
    IsPaired stream_b stream_a "b:1" after.0
    × (lookup "u" after.1.peers ≡ none)
    × ((uuid : String) → "u" ≢ uuid → lookup uuid after.1.peers ≡ lookup uuid tables.peers)
    × (lookup "b:1" after.1.usage ≡ some (0, 0, 0, 0))
arrive-pairs_example =
    arrive-pairs env "k" [] wanted stream_b stream_a "b:1" tables refl wanted-IsAdmitted

arrive_together_example :
    let first = arrive env "k" stream_a "a:1" [] tables in
    let second = arrive env "k" stream_b "b:1" [] first.1 in
    (first.0 ≡ must_wait "u")
    × (second.0 ≡ must_wait "u")
    × (lookup "u" (wait "u" stream_b (wait "u" stream_a second.1)).peers ≡ some stream_b)
arrive_together_example =
    arrive_together env "k" [] wanted stream_a stream_b "a:1" "b:1" tables refl wanted-IsAdmitted
      u_is_free

stale_timer_example :
    let paired = arrive env "k" stream_b "b:1" [] (wait "u" stream_a tables) in
    let waiting = arrive env "k" stream_a "c:1" [] paired.1 in
    (paired.0 ≡ set_both_raw stream_b stream_a "b:1")
    × (waiting.0 ≡ must_wait "u")
    × (lookup "u" (wait "u" stream_a waiting.1).peers ≡ some stream_a)
    × (lookup "u" (expire "u" (wait "u" stream_a waiting.1)).peers ≡ none)
stale_timer_example =
    stale_timer env "k" [] wanted stream_a stream_b stream_a "b:1" "c:1" tables refl
      wanted-IsAdmitted
