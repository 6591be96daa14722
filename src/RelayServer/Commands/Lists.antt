-- ===== src/RelayServer/Commands/Lists.antt =====
-- The lists of addresses, as the operator's commands change and show them.
use kinbridge_server.Prelude.{ℕ, ◌≡◌, refl, String, List, [], ◌∷◌, Option, none, some}
use kinbridge_server.Common.Text.{words}
use kinbridge_server.RelayServer.Commands.{
  Floats, Operated, Command, help, blacklist_add, blacklist_remove, show_blacklist, blocklist_add,
  blocklist_remove, show_blocklist, downgrade_threshold, downgrade_start_check, limit_speed,
  total_bandwidth, single_bandwidth, usage, execute, store_total, run_words, check_cmd,
}

module _ (floats : Floats) where
  store_total-tables : (o : Option ℕ) (s : Operated) → (store_total floats o s).tables ≡ s.tables
  unfolding store_total
  store_total-tables none s = refl
  store_total-tables (some v) s = refl

  execute-tables :
      (c : Option Command) (args : List String) (s : Operated)
      → (execute floats c args s).1.tables ≡ s.tables
  unfolding execute
  execute-tables (some help) args s = refl
  execute-tables (some blacklist_add) args s = refl
  execute-tables (some blacklist_remove) args s = refl
  execute-tables (some show_blacklist) args s = refl
  execute-tables (some blocklist_add) args s = refl
  execute-tables (some blocklist_remove) args s = refl
  execute-tables (some show_blocklist) args s = refl
  execute-tables (some downgrade_threshold) args s = refl
  execute-tables (some downgrade_start_check) args s = refl
  execute-tables (some limit_speed) args s = refl
  execute-tables (some total_bandwidth) args s = store_total-tables _ s
  execute-tables (some single_bandwidth) args s = refl
  execute-tables (some usage) args s = refl
  execute-tables none args s = refl

  run_words-tables : (ws : List String) (s : Operated) → (run_words floats ws s).1.tables ≡ s.tables
  unfolding run_words
  run_words-tables [] s = refl
  run_words-tables (w ∷ args) s = execute-tables _ args s

  -- No command touches the waiting streams or the usage.
  pub check_cmd-tables :
      (cmd : String) (s : Operated) → (check_cmd floats cmd s).1.tables ≡ s.tables
  unfolding check_cmd
  check_cmd-tables cmd s = run_words-tables (words cmd) s
