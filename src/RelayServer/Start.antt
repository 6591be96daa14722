-- ===== src/RelayServer/Start.antt =====
-- src/relay_server.rs, `start`, `check_params` and the beginning of `io_loop`: the lists of addresses
-- from their files, and the settings from the environment.
use kinbridge_server.Prelude.{String, List, [], ◌∷◌, Option, none, some, string_eq}
use kinbridge_server.Dict.{insert_new}
use kinbridge_server.Common.Text.{split, trim}
use kinbridge_server.RelayServer.Commands.{
  Floats, Settings, Operated, f64_value, usize_value, store, default_settings,
}

-- The first piece of a line: `x.trim().split(' ').next()`.
insert_first : List String → List String → List String
unfolding insert_new
insert_first [] set = set
insert_first (ip ∷ rest) set = insert_new ip set

insert_lines : List String → List String → List String
unfolding insert_first split trim
insert_lines [] set = set
insert_lines (x ∷ lines) set = insert_lines lines (insert_first (split b' ' (trim x)) set)

-- A file that is not there, or not readable, adds nothing.
unfoldable pub load_list : Option String → List String
unfolding insert_lines split
load_list none = []
load_list (some contents) = insert_lines (split 10 contents) []

-- std::env::var, as the argument of a setting.
variable : Option String → List String
variable none = []
variable (some v) = v ∷ []

module _ (floats : Floats) (vars : String → Option String) where
  unfoldable pub check_params : Settings → Settings
  unfolding store f64_value usize_value variable
  check_params t = record {
    downgrade_threshold_100 =
        store floats (f64_value floats 100 (variable (vars "DOWNGRADE_THRESHOLD")))
          t.downgrade_threshold_100;
    downgrade_start_check =
        store floats (usize_value floats 1000 (variable (vars "DOWNGRADE_START_CHECK")))
          t.downgrade_start_check;
    limit_speed =
        store floats (f64_value floats 1_048_576 (variable (vars "LIMIT_SPEED"))) t.limit_speed;
    total_bandwidth =
        store floats (f64_value floats 1_048_576 (variable (vars "TOTAL_BANDWIDTH")))
          t.total_bandwidth;
    single_bandwidth =
        store floats (f64_value floats 1_048_576 (variable (vars "SINGLE_BANDWIDTH")))
          t.single_bandwidth;
  }

  -- `io_loop` reads the environment again each time that it is entered, and makes a new limiter.
  unfoldable pub enter_loop : Operated → Operated
  unfolding check_params
  enter_loop s =
      let t = check_params s.settings in
      record s { settings = t; limiter_speed = t.total_bandwidth }

  unfoldable pub start : Option String → Option String → Operated
  unfolding enter_loop load_list default_settings
  start blacklist_file blocklist_file = enter_loop (record {
    tables = record { peers = []; usage = [] };
    blacklist = load_list blacklist_file;
    blocklist = load_list blocklist_file;
    settings = default_settings;
    limiter_speed = 0;
  })
