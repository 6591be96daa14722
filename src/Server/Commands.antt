-- ===== src/Server/Commands.antt =====
-- src/rendezvous_server.rs, `check_cmd`: the commands of an operator. The order in which a map is
-- printed is that of its list; ip-blocker and ip-changes are in Tables.
pub mod Tables
pub mod Relays
pub mod Untouched
use Prim.Native.String.{◌++◌ as append}
use mathlib.Core.List.{reverse}
use kinbridge_server.Prelude.{
  ℕ, ◌+◌, ◌^◌, Bool, true, false, ◌&&◌, ◌||◌, String, List, [], ◌∷◌, Option, none, some,
  if◌then◌else◌, ◌==◌, string_eq, eqb, leb, ltb, length, take, drop, is_empty,
}
use kinbridge_server.Prelude.Int.{ℤ, pos, negsuc}
use kinbridge_server.Dict.{Dict, lookup, remove, retain}
use kinbridge_server.Net.{IpAddr}
use kinbridge_server.Time.{elapsed_secs}
use kinbridge_server.Common.Text.{is_yes, words, write_lines}
use kinbridge_server.Common.Number.{show_nat, parse_usize, parse_i32}
use kinbridge_server.Blocker.{IpBlock, IpBlockMap, ip_block_dur, day_seconds}
use kinbridge_server.Server.State.{Local, Shared, IpChange, PunchReqEntry, relay_servers0}
use kinbridge_server.Server.Send.{send_tx}
use kinbridge_server.Server.Commands.Tables.{Texts, concat_rows, blocker_cmd, changes_cmd}
use kinbridge_server.Server.Relays.{get_relay_server}

pub data Command : Type 0 where
  help relay_servers ip_blocker ip_changes punch_requests always_use_relay test_geo : Command

abbrev commands : Dict String Command
commands =
    ("h", help)
    ∷ ("relay-servers", relay_servers)
    ∷ ("rs", relay_servers)
    ∷ ("ip-blocker", ip_blocker)
    ∷ ("ib", ip_blocker)
    ∷ ("ip-changes", ip_changes)
    ∷ ("ic", ip_changes)
    ∷ ("punch-requests", punch_requests)
    ∷ ("pr", punch_requests)
    ∷ ("always-use-relay", always_use_relay)
    ∷ ("aur", always_use_relay)
    ∷ ("test-geo", test_geo)
    ∷ ("tg", test_geo)
    ∷ []

help_text : String
help_text =
    "relay-servers(rs) <separated by ,>\nreload-geo(rg)\nip-blocker(ib) [<ip>|<number>] [-]\nip-changes(ic) [<id>|<number>] [-]\npunch-requests(pr) [<number>] [-]\nalways-use-relay(aur)\ntest-geo(tg) <ip1> <ip2>\n"

or_default : ℕ → Option ℕ → ℕ
or_default default none = default
or_default default (some n) = n

if_parsed : Option IpAddr → String × Shared → Shared → String × Shared
if_parsed none result s = ("", s)
if_parsed (some ip) result s = result

-- Of punch-requests: none is the number 0, and a page of no entry is one of ten.
usize_arg : ℕ → List String → ℕ
unfolding parse_usize or_default
usize_arg default [] = default
usize_arg default (x ∷ rest) = or_default default (parse_usize x)

module _ (texts : Texts) where
  punch_row : ℕ → PunchReqEntry → String
  punch_row now e = append (texts.calendar now e.tm) (
      append " "
        (append e.from_ip (append " -> " (append e.to_id (append "@" (append e.to_ip "\n"))))))

  -- The oldest entry first.
  punch_page : ℕ → List String → List String → List PunchReqEntry → String
  unfolding usize_arg punch_row concat_rows
  punch_page now first second reqs =
      let size = usize_arg 10 second in
      concat_rows (punch_row now)
        (take (if eqb size 0 then 10 else size) (drop (usize_arg 0 first) (reverse reqs)))

  punch_cmd : ℕ → List String → List PunchReqEntry → String × List PunchReqEntry
  unfolding punch_page
  punch_cmd now [] reqs = (punch_page now [] [] reqs, reqs)
  punch_cmd now (arg ∷ rest) reqs =
      if arg == "-" then ("", []) else (punch_page now (arg ∷ []) rest reqs, reqs)

  always_cmd : List String → Shared → String × Shared
  unfolding is_yes send_tx
  always_cmd [] s =
      (append "ALWAYS_USE_RELAY: " (if s.always_use_relay then "true\n" else "false\n"), s)
  always_cmd (rs ∷ rest) s =
      ("", send_tx (relay_servers0 rs) (record s { always_use_relay = is_yes rs }))

  relays_cmd : Local → List String → Shared → String × Shared
  unfolding send_tx write_lines
  relays_cmd l [] s = (write_lines l.relay_servers, s)
  relays_cmd l (rs ∷ rest) s = ("", send_tx (relay_servers0 rs) s)

  choose : Local → Shared → String × Shared
  unfolding get_relay_server
  choose l s =
      let (server, rotation) = get_relay_server l.relay_servers s.rotation_relay_server in
      (texts.debug_text server, record s { rotation_relay_server = rotation })

  second_ip : Local → List String → Shared → String × Shared
  unfolding choose if_parsed
  second_ip l [] s = choose l s
  second_ip l (b ∷ rest) s = if_parsed (texts.parse_ip b) (choose l s) s

  geo_cmd : Local → List String → Shared → String × Shared
  unfolding second_ip if_parsed
  geo_cmd l [] s = ("", s)
  geo_cmd l (a ∷ rest) s = if_parsed (texts.parse_ip a) (second_ip l rest s) s

  execute : ℕ → Local → Option Command → List String → Shared → String × Shared
  unfolding help_text blocker_cmd changes_cmd punch_cmd always_cmd relays_cmd geo_cmd
  execute now l none args s = ("", s)
  execute now l (some help) args s = (help_text, s)
  execute now l (some relay_servers) args s = relays_cmd l args s
  execute now l (some ip_blocker) args s =
      let (text, after) = blocker_cmd now args s.ip_blocker in
      (text, record s { ip_blocker = after })
  execute now l (some ip_changes) args s =
      let (text, after) = changes_cmd texts now args s.ip_changes in
      (text, record s { ip_changes = after })
  execute now l (some punch_requests) args s =
      let (text, after) = punch_cmd now args s.punch_reqs in (text, record s { punch_reqs = after })
  execute now l (some always_use_relay) args s = always_cmd args s
  execute now l (some test_geo) args s = geo_cmd l args s

  run_words : ℕ → Local → List String → Shared → String × Shared
  unfolding execute lookup
  run_words now l [] s = ("", s)
  run_words now l (w ∷ args) s = execute now l (lookup w commands) args s

  unfoldable pub check_cmd : ℕ → Local → String → Shared → String × Shared
  unfolding run_words words
  check_cmd now l cmd s = run_words now l (words cmd) s
