-- ===== src/Examples/Ui.antt =====
-- The theorems on the tray interface, at concrete moves.
use kinbridge_server.Prelude.{
  ℕ, zero, suc, ◌≡◌, refl, true, false, List, [], ◌∷◌, ◌++◌, some, string_eq,
}
use kinbridge_server.Time.{as_millis}
use kinbridge_server.Ui.{started, stopped, Event, browser_update, view_action, file_change}
use kinbridge_server.Ui.Desktop.{View, run, marks, enabled}
use kinbridge_server.Ui.Shown.{Shows}
use kinbridge_server.Ui.System.{
  System, Move, opened, moves, presenter_sends, presenter_polls, presenter_receives, view_receives,
  view_sends, changes_file, clicks_item,
}
use kinbridge_server.Ui.System.Mirror.{moves-Shows}
use kinbridge_server.Ui.System.Locked.{idle, log_burst, log_burst_locks}

-- The state of the service is read, and another file is chosen.
abbrev session : List Move
session =
    view_sends
    ∷ presenter_sends
    ∷ view_receives
    ∷ presenter_polls 2_000_000_000 started
    ∷ presenter_sends
    ∷ view_receives
    ∷ clicks_item "hbbs.err"
    ∷ view_sends
    ∷ presenter_receives
    ∷ presenter_receives
    ∷ presenter_sends
    ∷ view_receives
    ∷ []

abbrev shown : View
shown = record (run "hbbs" 0) {
  panel = record {
    menu = enabled started;
    tray = enabled started;
    title = "RustDesk Server Started";
    blink = false;
    selected = marks "hbbs.err";
  };
  window = record { visible = true; minimized = false; text = "RustDesk Server Started" };
  emitted = ("file", "hbbs.err") ∷ [];
}

abbrev after_session : System
after_session = record {
  presenter = record { service_state = started; file = "hbbs.err"; now = 2_000_000_000 };
  view = shown;
  saying = [];
  calling = [];
  changes = [];
  to_view = [];
  to_presenter = [];
}

session_leads : moves session (opened "hbbs" 0) ≡ some after_session
unfolding moves opened run enabled marks as_millis
session_leads = refl

moves-Shows_example : Shows after_session.presenter after_session.view.panel
moves-Shows_example = moves-Shows "hbbs" 0 session after_session session_leads refl refl

abbrev at_rest : View
at_rest = run "hbbs" 0

abbrev repeat : ℕ → Event → List Event
repeat zero e = []
repeat (suc n) e = e ∷ repeat n e

abbrev at_last : System
at_last = record {
  presenter = record { service_state = stopped; file = "hbbs.out"; now = 0 };
  view = at_rest;
  saying = browser_update "file" "hbbs.out" ∷ [];
  calling = view_action "start" ∷ [];
  changes = file_change "hbbs.err" ∷ [];
  to_view = repeat 10 (browser_update "file" "hbbs.out");
  to_presenter = repeat 10 (file_change "hbbs.out");
}

burst_leads :
    moves (log_burst "start" ++ changes_file "hbbs.err" ∷ []) (idle stopped 0 at_rest)
    ≡ some at_last
unfolding moves log_burst idle
burst_leads = refl

log_burst_locks_example : (at_last.view ≡ at_rest) × (at_last.calling ≡ view_action "start" ∷ [])
log_burst_locks_example =
    log_burst_locks stopped 0 at_rest "start" (changes_file "hbbs.err" ∷ []) at_last burst_leads
