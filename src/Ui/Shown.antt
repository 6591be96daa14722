-- ===== src/Ui/Shown.antt =====
-- What the window and the tray icon show of the presenter's state.
use kinbridge_server.Prelude.{
  not, ℕ, Bool, true, false, ◌≡◌, refl, String, List, [], ◌∷◌, ◌++◌, ltb, ◌==◌, string_eq, inl, inr,
  ◌⊎◌, if◌then◌else◌,
}
use kinbridge_server.Time.{elapsed, as_millis}
use kinbridge_server.Ui.{
  paused, started, stopped, unknown, Event, DesktopServiceState, same_state, browser_update,
  view_render_service_state,
}
use kinbridge_server.Ui.Presenter.{
  Presenter, Said, receive, poll, update_of, view_action_step, act, tell, quiet,
}
use kinbridge_server.Ui.Desktop.{
  Buttons, Panel, list, contains, marks, enabled, blinks, title_of, select, show,
}

-- The item of the presenter's file is the one that is marked, but for a file without an item, and
-- before the first mark.
unfoldable pub Marked : String → List (String × Bool) → Type 0
Marked file selected = (selected ≡ marks file) ⊎ (contains file list ≡ false) ⊎ (selected ≡ [])

-- Only a stopped service can be started, and only a started one stopped or started anew.
unfoldable pub Fits : DesktopServiceState → Buttons → Type 0
unfolding same_state
Fits state b =
    (b.start_item ≡ same_state state stopped)
    × (b.stop_item ≡ same_state state started)
    × (b.restart_item ≡ same_state state started)

enabled-Fits : (state : DesktopServiceState) → Fits state (enabled state)
unfolding Fits enabled same_state
enabled-Fits paused = (refl, refl, refl)
enabled-Fits started = (refl, refl, refl)
enabled-Fits stopped = (refl, refl, refl)
enabled-Fits unknown = (refl, refl, refl)

blinks-same_state : (state : DesktopServiceState) → blinks state ≡ not (same_state state started)
unfolding blinks same_state
blinks-same_state paused = refl
blinks-same_state started = refl
blinks-same_state stopped = refl
blinks-same_state unknown = refl

unfoldable pub Shows : Presenter → Panel → Type 0
unfolding Marked Fits
Shows p q =
    Fits p.service_state q.menu
    × Fits p.service_state q.tray
    × (q.title ≡ title_of p.service_state)
    × (q.blink ≡ not (same_state p.service_state started))
    × Marked p.file q.selected

-- The panel once some events have been shown.
unfoldable pub drawn : List Event → Panel → Panel
unfolding show
drawn [] q = q
drawn (e ∷ es) q = drawn es (show e q)

pub drawn-append : (xs ys : List Event) (q : Panel) → drawn (xs ++ ys) q ≡ drawn ys (drawn xs q)
unfolding drawn
drawn-append [] ys q = refl
drawn-append (x ∷ xs) ys q = drawn-append xs ys (show x q)

select_if-Shows :
    (listed : Bool) (p : Presenter) (file : String) (q : Panel)
    → contains file list ≡ listed
    → Shows p q
    → Shows (record p { file = file }) (if listed then record q { selected = marks file } else q)
unfolding Shows Marked
select_if-Shows true p file q e (m, t, n, b, f) = (m, t, n, b, inl refl)
select_if-Shows false p file q e (m, t, n, b, f) = (m, t, n, b, inr (inl e))

-- Whatever the file was before.
select-Shows :
    (p : Presenter) (file : String) (q : Panel)
    → Shows p q
    → Shows (record p { file = file }) (select file q)
unfolding select
select-Shows p file q h = select_if-Shows (contains file list) p file q refl h

unfoldable pub SaidShows : Panel → Said → Type 0
unfolding drawn
SaidShows q s = Shows s.presenter (drawn s.messages q)

if-SaidShows :
    (test : Bool) (s t : Said) (q : Panel)
    → SaidShows q s
    → SaidShows q t
    → SaidShows q (if test then s else t)
if-SaidShows true s t q h k = h
if-SaidShows false s t q h k = k

view_action_step-Shows :
    (action : String) (p : Presenter) (q : Panel)
    → Shows p q
    → SaidShows q (view_action_step action p)
unfolding view_action_step act tell update_of drawn show SaidShows
view_action_step-Shows action p q h = if-SaidShows (action == "start") _ _ q h (
    if-SaidShows (action == "stop") _ _ q h (
      if-SaidShows (action == "restart") _ _ q h (
        if-SaidShows (action == "pause") _ _ q h
          (if-SaidShows (action == "exit") _ _ q h (select-Shows p action q h)))))

pub receive-Shows : (e : Event) (p : Presenter) (q : Panel) → Shows p q → SaidShows q (receive e p)
unfolding receive act tell quiet update_of drawn show SaidShows
receive-Shows Event.browser_init p q h = select-Shows p p.file q h
receive-Shows (Event.browser_action action) p q h = if-SaidShows (action == "restart") _ _ q h h
receive-Shows (Event.file_change path) p q h =
    if-SaidShows (path == p.file) _ _ q (select-Shows p p.file q h) h
receive-Shows (Event.view_action action) p q h = view_action_step-Shows action p q h
receive-Shows (browser_update action data_text) p q h = h
receive-Shows (Event.browser_render text) p q h = h
receive-Shows Event.view_init p q h = h
receive-Shows (Event.view_update text) p q h = h
receive-Shows (Event.view_render text) p q h = h
receive-Shows Event.view_render_app_exit p q h = h
receive-Shows (view_render_service_state state) p q h = h

pub poll-Shows :
    (now : ℕ) (state : DesktopServiceState) (p : Presenter) (q : Panel)
    → Shows p q
    → SaidShows q (poll now state p)
unfolding poll tell quiet drawn show SaidShows Shows same_state
poll-Shows now state p q h =
    if-SaidShows (ltb 999 (as_millis (elapsed now p.now))) _ _ q
      (if-SaidShows (same_state state p.service_state) _ _ q h
        (enabled-Fits state, enabled-Fits state, refl, blinks-same_state state, h.4))
      h
