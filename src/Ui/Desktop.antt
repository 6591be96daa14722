-- ===== src/Ui/Desktop.antt =====
-- ui/src/adapter/view/desktop.rs: the window, its menu and the tray icon. The calls of the window
-- system are the changes of a record.
use Prim.Native.String.{◌++◌ as append}
use kinbridge_server.Prelude.{
  ℕ, ◌+◌, ◌/◌, Bool, true, false, String, List, [], ◌∷◌, ◌++◌, map, Option, none, some, ltb, eqb,
  if◌then◌else◌, ◌==◌, ◌||◌, string_eq,
}
use kinbridge_server.Time.{elapsed}
use kinbridge_server.Ui.{
  Event, DesktopServiceState, paused, started, stopped, unknown, browser_action, browser_init,
  browser_update, browser_render, file_change, view_action, view_init, view_update, view_render,
  view_render_app_exit, view_render_service_state, state_text,
}

-- Which of the items are enabled.
pub record Buttons : Type 0 where
  pub start_item : Bool
  pub stop_item : Bool
  pub restart_item : Bool

-- What the messages of the presenter determine. `selected` has the marks of the items for the files,
-- and is empty before the first `set_selected`.
pub record Panel : Type 0 where
  pub menu : Buttons
  pub tray : Buttons
  pub title : String
  pub blink : Bool
  pub selected : List (String × Bool)

pub record Window : Type 0 where
  pub visible : Bool
  pub minimized : Bool
  pub text : String

pub record View : Type 0 where
  pub panel : Panel
  pub window : Window
  pub now : ℕ
  pub span : ℕ
  pub emitted : List (String × String)

abbrev pub product : String
product = "RustDesk Server"

abbrev pub list : List String
list = "hbbs.out" ∷ "hbbs.err" ∷ "hbbr.out" ∷ "hbbr.err" ∷ ".env" ∷ []

abbrev all_enabled : Buttons
all_enabled = record { start_item = true; stop_item = true; restart_item = true }

-- Before the loop. The window's first text is that of its configuration.
unfoldable pub run : String → ℕ → View
run text now = record {
  panel = record {
    menu = all_enabled;
    tray = all_enabled;
    title = "";
    blink = false;
    selected = [];
  };
  window = record { visible = true; minimized = false; text = text };
  now = now;
  span = 0;
  emitted = [];
}

unfoldable pub contains : String → List String → Bool
contains id [] = false
contains id (file ∷ rest) = file == id || contains id rest

unfoldable pub marks : String → List (String × Bool)
marks id = map (λ file. (file, file == id)) list

unfoldable pub enabled : DesktopServiceState → Buttons
enabled started = record { start_item = false; stop_item = true; restart_item = true }
enabled stopped = record { start_item = true; stop_item = false; restart_item = false }
enabled paused = record { start_item = false; stop_item = false; restart_item = false }
enabled unknown = record { start_item = false; stop_item = false; restart_item = false }

unfoldable pub blinks : DesktopServiceState → Bool
blinks started = false
blinks paused = true
blinks stopped = true
blinks unknown = true

unfoldable pub title_of : DesktopServiceState → String
unfolding state_text
title_of state = append product (append " " (state_text state))

unfoldable pub select : String → Panel → Panel
unfolding contains marks
select id p = if contains id list then record p { selected = marks id } else p

-- What an event does to the panel.
unfoldable pub show : Event → Panel → Panel
unfolding select enabled blinks title_of
show (browser_update action id) p = if action == "file" then select id p else p
show (view_render_service_state state) p = record p {
  menu = enabled state;
  tray = enabled state;
  title = title_of state;
  blink = blinks state;
}
show (browser_action action) p = p
show browser_init p = p
show (browser_render text) p = p
show (file_change path) p = p
show (view_action action) p = p
show view_init p = p
show (view_update text) p = p
show (view_render text) p = p
show view_render_app_exit p = p

-- What it does besides: the text of the window, and what is emitted to the page.
set_text : Event → Window → Window
unfolding title_of
set_text (view_render_service_state state) w = record w { text = title_of state }
set_text e w = w

emit : Event → List (String × String) → List (String × String)
unfolding contains
emit (browser_update action id) sent =
    if action == "file" then if contains id list then sent ++ (action, id) ∷ [] else sent else sent
emit e sent = sent

unfoldable pub render : Event → View → View
unfolding show set_text emit
render e v = record v {
  panel = show e v.panel;
  window = set_text e v.window;
  emitted = emit e v.emitted;
}

-- `none` is the end of the process, by `exit(0)`.
unfoldable pub handle_event : Event → View → Option View
unfolding render
handle_event view_render_app_exit v = none
handle_event e v = some (render e v)

-- The text of a window whose service does not run changes twice a second or so, between the title and
-- the product.
unfoldable pub blink_step : ℕ → View → View
blink_step micros v =
    if ltb 1_000_000 v.span
    then record v { span = 0; window = record v.window { text = v.panel.title } }
    else let span = v.span + micros in
      if ltb 500_000 span
      then record v { span = span; window = record v.window { text = product } }
      else record v { span = span }

-- The rest of a round; `windows` is what `run_iteration` counts. `none` is the end of the loop.
unfoldable pub iterate : ℕ → ℕ → View → Option View
unfolding elapsed blink_step
iterate now windows v =
    let micros = elapsed now v.now / 1_000 in
    if ltb 16_666 micros
    then if eqb windows 0
      then none
      else some (
          if v.panel.blink
          then blink_step micros (record v { now = now })
          else record v { now = now })
    else some v

-- Callbacks. A click on the icon in the tray:
unfoldable pub left_click : Window → Window
left_click w =
    if w.visible
    then record w { visible = false }
    else record w { visible = true; minimized = false }

unfoldable pub close_requested : Window → Window
close_requested w = record w { minimized = true; visible = false }

-- An item of the menu or of the tray's menu:
unfoldable pub menu_event : String → List Event
menu_event id = view_action id ∷ []

-- The page's `__action__`, with the payload as JSON:
unfoldable pub action_event : String → List Event
action_event payload =
    if payload == "\"__init__\""
    then browser_init ∷ []
    else if payload == "\"restart\""
    then browser_action "restart" ∷ []
    else []
