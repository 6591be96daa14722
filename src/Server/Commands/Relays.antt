-- ===== src/Server/Commands/Relays.antt =====
-- The list of relay servers after the command `always-use-relay`.
use kinbridge_server.Prelude.{◌≡◌, refl, true, String, [], none, ℕ, string_eq}
use kinbridge_server.Dict.{lookup}
use kinbridge_server.Common.Text.{
  is_yes, words, split, extend, trim, trim_start, trim_end, is_whitespace,
}
use kinbridge_server.Common.{get_servers, keep_servers, is_server, test_if_valid_server}
use kinbridge_server.Env.{Env, Ctx}
use kinbridge_server.Server.State.{Local, Shared}
use kinbridge_server.Server.Send.{send_tx}
use kinbridge_server.Server.Loop.{io_step, received, parse_relay_servers}
use kinbridge_server.Server.Relays.{get_relay_server}
use kinbridge_server.Server.Commands.Tables.{Texts}
use kinbridge_server.Server.Commands.{check_cmd, run_words, execute, always_cmd}

-- `aur Y` turns the relays on, and queues its argument as a list of relay servers. Where nothing else
-- is queued and "Y" is no host name, the loop's next round then leaves no relay server, and
-- get_relay_server has none to give.
pub always_relay_empties :
    (env : Env) (texts : Texts) (ctx : Ctx) (now : ℕ) (key : String) (clone own : Local)
    (s : Shared)
    → s.tx ≡ []
    → env.to_socket_addrs "Y:0" ≡ none
    → let after = (check_cmd texts now clone "aur Y" s).1 in
      let round = io_step env ctx key received own after in
      (round.2.always_use_relay ≡ true)
      × (round.1.relay_servers ≡ [])
      × ((get_relay_server round.1.relay_servers round.2.rotation_relay_server).0 ≡ "")
unfolding check_cmd run_words execute always_cmd is_yes words split extend trim trim_start trim_end
    is_whitespace lookup send_tx io_step parse_relay_servers get_servers keep_servers is_server
    test_if_valid_server get_relay_server
always_relay_empties env texts ctx now key clone own s q n = rw (q, n) (refl, refl, refl)
