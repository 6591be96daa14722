-- ===== src/RelayServer/Commands.antt =====
-- src/relay_server.rs, `check_cmd`: the commands of an operator, and the state that they act on. A
-- text as a floating-point number is a parameter (Floats); the order in which a set is printed is
-- that of its list.
pub mod Lists
pub mod Blocking
use Prim.Native.String.{◌++◌ as append}
use kinbridge_server.Prelude.{
  ℕ, ◌+◌, ◌*◌, ◌/◌, ◌%◌, ◌^◌, Bool, true, false, not, String, List, [], ◌∷◌, Option, none, some,
  if◌then◌else◌, ◌==◌, string_eq, eqb, leb, ltb,
}
use kinbridge_server.Dict.{Dict, lookup, contains, insert_new, remove_elem}
use kinbridge_server.Common.Text.{split, words, write_lines}
use kinbridge_server.Common.Number.{show_nat, parse_usize}
use kinbridge_server.RelayServer.{Tables, Usage}
use kinbridge_server.RelayServer.Transfer.{usize}

-- What the code does with f64, a number by its bit pattern: the parsing of a text, the test `v > 0.`,
-- `(v * k) as usize`, `n as f64 / k` as text, and the `{:.2}` of `total as f64 / 1024. / 1024. / 8.`;
-- and `(sb as f64 * percent as f64 / 100. / 1000.) as usize`.
pub record Floats : Type 0 where
  pub parse_f64 : String → Option ℕ
  pub is_positive : ℕ → Bool
  pub scaled : ℕ → ℕ → ℕ
  pub show_ratio : ℕ → ℕ → String
  pub show_mb : ℕ → String
  pub per_ms : ℕ → ℕ → ℕ

-- The atomic variables.
pub record Settings : Type 0 where
  pub downgrade_threshold_100 : ℕ
  pub downgrade_start_check : ℕ
  pub limit_speed : ℕ
  pub total_bandwidth : ℕ
  pub single_bandwidth : ℕ

unfoldable pub default_settings : Settings
default_settings = record {
  downgrade_threshold_100 = 66;
  downgrade_start_check = 1_800_000;
  limit_speed = 33_554_432;
  total_bandwidth = 1_073_741_824;
  single_bandwidth = 134_217_728;
}

-- `limiter_speed` is the speed of the limiter that all relays share.
pub record Operated : Type 0 where
  pub tables : Tables
  pub blacklist : List String
  pub blocklist : List String
  pub settings : Settings
  pub limiter_speed : ℕ

pub data Command : Type 0 where
  help blacklist_add blacklist_remove show_blacklist blocklist_add blocklist_remove show_blocklist
        downgrade_threshold downgrade_start_check limit_speed total_bandwidth single_bandwidth
        usage :
      Command

abbrev commands : Dict String Command
commands =
    ("h", help)
    ∷ ("blacklist-add", blacklist_add)
    ∷ ("ba", blacklist_add)
    ∷ ("blacklist-remove", blacklist_remove)
    ∷ ("br", blacklist_remove)
    ∷ ("blacklist", show_blacklist)
    ∷ ("b", show_blacklist)
    ∷ ("blocklist-add", blocklist_add)
    ∷ ("Ba", blocklist_add)
    ∷ ("blocklist-remove", blocklist_remove)
    ∷ ("Br", blocklist_remove)
    ∷ ("blocklist", show_blocklist)
    ∷ ("B", show_blocklist)
    ∷ ("downgrade-threshold", downgrade_threshold)
    ∷ ("dt", downgrade_threshold)
    ∷ ("downgrade-start-check", downgrade_start_check)
    ∷ ("t", downgrade_start_check)
    ∷ ("limit-speed", limit_speed)
    ∷ ("ls", limit_speed)
    ∷ ("total-bandwidth", total_bandwidth)
    ∷ ("tb", total_bandwidth)
    ∷ ("single-bandwidth", single_bandwidth)
    ∷ ("sb", single_bandwidth)
    ∷ ("usage", usage)
    ∷ ("u", usage)
    ∷ []

help_text : String
help_text =
    "blacklist-add(ba) <ip>\nblacklist-remove(br) <ip>\nblacklist(b) <ip>\nblocklist-add(Ba) <ip>\nblocklist-remove(Br) <ip>\nblocklist(B) <ip>\ndowngrade-threshold(dt) [value]\ndowngrade-start-check(t) [value(second)]\nlimit-speed(ls) [value(Mb/s)]\ntotal-bandwidth(tb) [value(Mb/s)]\nsingle-bandwidth(sb) [value(Mb/s)]\nusage(u)\n"

-- Sets of addresses: `for ip in ip.split('|')`.
add_all : List String → List String → List String
unfolding insert_new
add_all [] set = set
add_all (ip ∷ ips) set = add_all ips (insert_new ip set)

remove_all : List String → List String → List String
unfolding remove_elem
remove_all [] set = set
remove_all (ip ∷ ips) set = remove_all ips (remove_elem ip set)

unfoldable pub add_ips : List String → List String → List String
unfolding add_all split
add_ips [] set = set
add_ips (ip ∷ args) set = add_all (split b'|' ip) set

unfoldable pub remove_ips : List String → List String → List String
unfolding remove_all split
remove_ips [] set = set
remove_ips (ip ∷ args) set = if ip == "all" then [] else remove_all (split b'|' ip) set

unfoldable pub show_ips : List String → List String → String
unfolding contains write_lines
show_ips [] set = write_lines set
show_ips (ip ∷ args) set = if contains ip set then "true\n" else "false\n"

-- `sort_by` is stable: by falling totals.
insert_row : String × Usage → List (String × Usage) → List (String × Usage)
insert_row row [] = row ∷ []
insert_row (id, u) ((jd, v) ∷ rows) =
    let later = insert_row (id, u) rows in
    if ltb u.1 v.1 then (jd, v) ∷ later else (id, u) ∷ (jd, v) ∷ rows

unfoldable pub sort_rows : List (String × Usage) → List (String × Usage)
unfolding insert_row
sort_rows [] = []
sort_rows (row ∷ rows) = insert_row row (sort_rows rows)

module _ (floats : Floats) where
  -- `{}: {}s {:.2}MB {}kb/s {}kb/s {}kb/s`.
  row_text : String × Usage → String
  unfolding show_nat
  row_text (id, (elapsed, total, highest, speed)) = append id (
      append ": " (
        append (show_nat (elapsed / 1000)) (
          append "s " (
            append (floats.show_mb total) (
              append "MB " (
                append (show_nat highest) (
                  append "kb/s " (
                    append (show_nat (total / elapsed))
                      (append "kb/s " (append (show_nat speed) "kb/s\n"))))))))))

  -- A relay that has run for less than a second is left out, and with it the division by zero.
  unfoldable pub usage_text : List (String × Usage) → String
  unfolding row_text
  usage_text [] = ""
  usage_text ((id, (elapsed, total, highest, speed)) ∷ rows) =
      let rest = usage_text rows in
      if eqb elapsed 0 then rest else append (row_text (id, (elapsed, total, highest, speed))) rest

  if_positive : ℕ → Option ℕ → Option ℕ
  if_positive factor none = none
  if_positive factor (some v) = if floats.is_positive v then some (floats.scaled v factor) else none

  -- The value that an argument sets: a positive number, times a factor.
  unfoldable pub f64_value : ℕ → List String → Option ℕ
  unfolding if_positive
  f64_value factor [] = none
  f64_value factor (v ∷ args) = if_positive factor (floats.parse_f64 v)

  if_above : ℕ → Option ℕ → Option ℕ
  unfolding usize
  if_above factor none = none
  if_above factor (some v) = if ltb 0 v then some (usize (v * factor)) else none

  unfoldable pub usize_value : ℕ → List String → Option ℕ
  unfolding if_above parse_usize
  usize_value factor [] = none
  usize_value factor (v ∷ args) = if_above factor (parse_usize v)

  unfoldable pub store : Option ℕ → ℕ → ℕ
  store none old = old
  store (some v) old = v

  -- Without an argument a setting is printed.
  show_if_none : List String → String → String
  show_if_none [] text = text
  show_if_none (v ∷ args) text = ""

  store_total : Option ℕ → Operated → Operated
  store_total none s = s
  store_total (some v) s = record s {
    settings = record s.settings { total_bandwidth = v };
    limiter_speed = v;
  }

  mb_text : ℕ → String
  mb_text n = append (floats.show_ratio n 1_048_576) "Mb/s\n"

  unfoldable pub execute : Option Command → List String → Operated → String × Operated
  unfolding help_text add_ips remove_ips show_ips f64_value usize_value store show_if_none
      store_total mb_text show_nat usage_text sort_rows
  execute (some help) args s = (help_text, s)
  execute (some blacklist_add) args s = ("", record s { blacklist = add_ips args s.blacklist })
  execute (some blacklist_remove) args s =
      ("", record s { blacklist = remove_ips args s.blacklist })
  execute (some show_blacklist) args s = (show_ips args s.blacklist, s)
  execute (some blocklist_add) args s = ("", record s { blocklist = add_ips args s.blocklist })
  execute (some blocklist_remove) args s =
      ("", record s { blocklist = remove_ips args s.blocklist })
  execute (some show_blocklist) args s = (show_ips args s.blocklist, s)
  execute (some downgrade_threshold) args s = (
    show_if_none args (append (floats.show_ratio s.settings.downgrade_threshold_100 100) "\n"),
    record s {
      settings = record s.settings {
        downgrade_threshold_100 = store (f64_value 100 args) s.settings.downgrade_threshold_100;
      };
    },
  )
  execute (some downgrade_start_check) args s = (
    show_if_none args (append (show_nat (s.settings.downgrade_start_check / 1000)) "s\n"),
    record s {
      settings = record s.settings {
        downgrade_start_check = store (usize_value 1000 args) s.settings.downgrade_start_check;
      };
    },
  )
  execute (some limit_speed) args s = (
    show_if_none args (mb_text s.settings.limit_speed),
    record s {
      settings = record s.settings {
        limit_speed = store (f64_value 1_048_576 args) s.settings.limit_speed;
      };
    },
  )
  execute (some total_bandwidth) args s = (
    show_if_none args (mb_text s.settings.total_bandwidth),
    store_total (f64_value 1_048_576 args) s,
  )
  execute (some single_bandwidth) args s = (
    show_if_none args (mb_text s.settings.single_bandwidth),
    record s {
      settings = record s.settings {
        single_bandwidth = store (f64_value 1_048_576 args) s.settings.single_bandwidth;
      };
    },
  )
  execute (some usage) args s = (usage_text (sort_rows s.tables.usage), s)
  execute none args s = ("", s)

  run_words : List String → Operated → String × Operated
  unfolding execute lookup
  run_words [] s = ("", s)
  run_words (w ∷ args) s = execute (lookup w commands) args s

  unfoldable pub check_cmd : String → Operated → String × Operated
  unfolding run_words words
  check_cmd cmd s = run_words (words cmd) s
