-- ===== src/Ui/System.antt =====
-- ui/src/main.rs: the presenter, the view and the watcher on the two bounded channels between them,
-- in any order of their steps. A callback of the window system is run on the view's own thread, by
-- `run_iteration`, so that the view does nothing else while a callback waits for room in a channel.
pub mod Mirror
pub mod Locked
use kinbridge_server.Prelude.{
  ℕ, String, List, [], ◌∷◌, ◌++◌, Option, none, some, length, ltb, if◌then◌else◌,
}
use kinbridge_server.Ui.{Event, DesktopServiceState, buffer}
use kinbridge_server.Ui.Presenter.{Presenter, Said, create, receive, poll}
use kinbridge_server.Ui.Desktop.{
  View, run, handle_event, iterate, left_click, close_requested, menu_event, action_event,
}
use kinbridge_server.Ui.Watcher.{named}

-- `saying` and `calling` are what the presenter and the view have still to send, and `changes` what
-- the watcher has.
pub record System : Type 0 where
  pub presenter : Presenter
  pub view : View
  pub saying : List Event
  pub calling : List Event
  pub changes : List Event
  pub to_view : List Event
  pub to_presenter : List Event

-- The start of all three; `setup` sends ViewInit.
unfoldable pub opened : String → ℕ → System
unfolding create run
opened text now = record {
  presenter = (create now).presenter;
  view = run text now;
  saying = (create now).messages;
  calling = Event.view_init ∷ [];
  changes = [];
  to_view = [];
  to_presenter = [];
}

pub data Move : Type 0 where
  presenter_receives presenter_sends : Move
  presenter_polls : ℕ → DesktopServiceState → Move
  view_receives view_sends : Move
  view_ticks : ℕ → ℕ → Move
  clicks_item page_calls : String → Move
  clicks_icon closes : Move
  changes_file : String → Move
  watcher_sends : Move

heard : Said → System → System
heard s x = record x { presenter = s.presenter; saying = s.messages }

-- Only a part that has nothing left to send does something else.
presenter_receives_at : List Event → List Event → System → Option System
unfolding heard receive
presenter_receives_at [] (e ∷ rest) x =
    some (heard (receive e x.presenter) (record x { to_presenter = rest }))
presenter_receives_at _ _ x = none

presenter_polls_at : List Event → ℕ → DesktopServiceState → System → Option System
unfolding heard poll
presenter_polls_at [] now state x = some (heard (poll now state x.presenter) x)
presenter_polls_at (e ∷ rest) now state x = none

has_view : System → Option View → Option System
has_view x none = none
has_view x (some v) = some (record x { view = v })

view_receives_at : List Event → List Event → System → Option System
unfolding handle_event has_view
view_receives_at [] (e ∷ rest) x = has_view (record x { to_view = rest }) (handle_event e x.view)
view_receives_at _ _ x = none

-- A step of the view's thread, which a blocked callback stops.
on_thread : List Event → Option View → List Event → System → Option System
unfolding has_view
on_thread [] v sent x = has_view (record x { calling = sent }) v
on_thread (e ∷ rest) v sent x = none

-- `send` waits for room.
presenter_sends_at : List Event → System → Option System
presenter_sends_at [] x = none
presenter_sends_at (e ∷ rest) x =
    if ltb (length x.to_view) buffer
    then some (record x { saying = rest; to_view = x.to_view ++ e ∷ [] })
    else none

view_sends_at : List Event → System → Option System
view_sends_at [] x = none
view_sends_at (e ∷ rest) x =
    if ltb (length x.to_presenter) buffer
    then some (record x { calling = rest; to_presenter = x.to_presenter ++ e ∷ [] })
    else none

watcher_sends_at : List Event → System → Option System
watcher_sends_at [] x = none
watcher_sends_at (e ∷ rest) x =
    if ltb (length x.to_presenter) buffer
    then some (record x { changes = rest; to_presenter = x.to_presenter ++ e ∷ [] })
    else none

click_window : System → View
unfolding left_click
click_window x = record x.view { window = left_click x.view.window }

close_window : System → View
unfolding close_requested
close_window x = record x.view { window = close_requested x.view.window }

-- `none` where the move is not possible, or ends the view.
unfoldable pub move : Move → System → Option System
unfolding presenter_receives_at presenter_polls_at view_receives_at on_thread presenter_sends_at
    view_sends_at watcher_sends_at click_window close_window iterate menu_event action_event named
move presenter_receives x = presenter_receives_at x.saying x.to_presenter x
move presenter_sends x = presenter_sends_at x.saying x
move (presenter_polls now state) x = presenter_polls_at x.saying now state x
move view_receives x = view_receives_at x.calling x.to_view x
move view_sends x = view_sends_at x.calling x
move (view_ticks now windows) x = on_thread x.calling (iterate now windows x.view) [] x
move (clicks_item id) x = on_thread x.calling (some x.view) (menu_event id) x
move (page_calls payload) x = on_thread x.calling (some x.view) (action_event payload) x
move clicks_icon x = on_thread x.calling (some (click_window x)) [] x
move closes x = on_thread x.calling (some (close_window x)) [] x
move (changes_file name) x = some (record x { changes = x.changes ++ named name })
move watcher_sends x = watcher_sends_at x.changes x

then_do : Option System → (System → Option System) → Option System
then_do none f = none
then_do (some y) f = f y

-- A run of several moves.
unfoldable pub moves : List Move → System → Option System
unfolding move then_do
moves [] x = some x
moves (m ∷ rest) x = then_do (move m x) (λ y. moves rest y)
