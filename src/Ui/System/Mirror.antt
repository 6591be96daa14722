-- ===== src/Ui/System/Mirror.antt =====
-- The window and the tray icon show what the presenter knows.
use mathlib.Core.List.{append_assoc, append-nil}
use mathlib.Core.Path.{subst}
use mathlib.Core.Option.{some-injective}
use kinbridge_server.Prelude.{
  ℕ, Bool, true, false, ◌≡◌, refl, String, List, [], ◌∷◌, ◌++◌, Option, none, some, length, ◌+◌,
  ltb, eqb, ◌/◌, string_eq, inr, if◌then◌else◌,
}
use kinbridge_server.Time.{elapsed}
use kinbridge_server.Ui.{
  Event, DesktopServiceState, buffer, browser_update, view_render_service_state,
}
use kinbridge_server.Ui.Presenter.{Said, receive, poll}
use kinbridge_server.Ui.Desktop.{View, Panel, show, render, handle_event, iterate, blink_step}
use kinbridge_server.Ui.System.{
  System, Move, opened, move, moves, then_do, presenter_receives_at, presenter_polls_at,
  view_receives_at, on_thread, presenter_sends_at, view_sends_at, watcher_sends_at, has_view, heard,
  click_window, close_window,
}
use kinbridge_server.Ui.{same_state}
use kinbridge_server.Ui.Shown.{
  Fits, Marked, Shows, drawn, drawn-append, SaidShows, receive-Shows, poll-Shows,
}

-- Once the view has shown all that is on its way.
Mirrors : System → Type 0
unfolding Shows drawn
Mirrors x = Shows x.presenter (drawn (x.to_view ++ x.saying) x.view.panel)

-- What the presenter does when it has nothing to send.
heard-Mirrors :
    (s : Said) (x y : System)
    → x.saying ≡ []
    → Mirrors x
    → ((q : Panel) → Shows x.presenter q → SaidShows q s)
    → y.to_view ≡ x.to_view
    → y.view ≡ x.view
    → Mirrors (heard s y)
unfolding Mirrors heard SaidShows
heard-Mirrors s x y idle h k same_queue same_view =
    rw (same_queue, same_view, drawn-append x.to_view s.messages x.view.panel)
      (k _ (rw (← append-nil x.to_view, ← idle) h))

MirrorsAfter : Option System → Type 0
MirrorsAfter none = Unit
MirrorsAfter (some y) = Mirrors y

presenter_receives_at-Mirrors :
    (saying es : List Event) (x : System)
    → x.saying ≡ saying
    → Mirrors x
    → MirrorsAfter (presenter_receives_at saying es x)
unfolding presenter_receives_at MirrorsAfter
presenter_receives_at-Mirrors [] [] x idle h = tt
presenter_receives_at-Mirrors (s ∷ saying) es x idle h = tt
presenter_receives_at-Mirrors [] (event ∷ rest) x idle h =
    heard-Mirrors (receive event x.presenter) x (record x { to_presenter = rest }) idle h
      (receive-Shows event x.presenter) refl refl

presenter_polls_at-Mirrors :
    (saying : List Event) (now : ℕ) (state : DesktopServiceState) (x : System)
    → x.saying ≡ saying
    → Mirrors x
    → MirrorsAfter (presenter_polls_at saying now state x)
unfolding presenter_polls_at MirrorsAfter
presenter_polls_at-Mirrors (s ∷ saying) now state x idle h = tt
presenter_polls_at-Mirrors [] now state x idle h =
    heard-Mirrors (poll now state x.presenter) x x idle h (poll-Shows now state x.presenter) refl
      refl

if-MirrorsAfter :
    (test : Bool) (y : System) → Mirrors y → MirrorsAfter (if test then some y else none)
unfolding MirrorsAfter
if-MirrorsAfter true y h = h
if-MirrorsAfter false y h = tt

presenter_sends_at-Mirrors :
    (saying : List Event) (x : System)
    → x.saying ≡ saying
    → Mirrors x
    → MirrorsAfter (presenter_sends_at saying x)
unfolding presenter_sends_at Mirrors MirrorsAfter
presenter_sends_at-Mirrors [] x q h = tt
presenter_sends_at-Mirrors (s ∷ saying) x q h =
    if-MirrorsAfter (ltb (length x.to_view) buffer) _
      (rw (append_assoc x.to_view (s ∷ []) saying, ← q) h)

view_sends_at-Mirrors :
    (calling : List Event) (x : System) → Mirrors x → MirrorsAfter (view_sends_at calling x)
unfolding view_sends_at Mirrors MirrorsAfter
view_sends_at-Mirrors [] x h = tt
view_sends_at-Mirrors (e ∷ calling) x h = if-MirrorsAfter (ltb (length x.to_presenter) buffer) _ h

watcher_sends_at-Mirrors :
    (changes : List Event) (x : System) → Mirrors x → MirrorsAfter (watcher_sends_at changes x)
unfolding watcher_sends_at Mirrors MirrorsAfter
watcher_sends_at-Mirrors [] x h = tt
watcher_sends_at-Mirrors (e ∷ changes) x h =
    if-MirrorsAfter (ltb (length x.to_presenter) buffer) _ h

has_event-Mirrors :
    (e : Event) (rest : List Event) (x : System)
    → Shows x.presenter (drawn (rest ++ x.saying) (show e x.view.panel))
    → MirrorsAfter (has_view (record x { to_view = rest }) (handle_event e x.view))
unfolding Mirrors MirrorsAfter has_view handle_event render drawn show
has_event-Mirrors (browser_update action data_text) rest x h = h
has_event-Mirrors (view_render_service_state state) rest x h = h
has_event-Mirrors (Event.browser_action action) rest x h = h
has_event-Mirrors (Event.browser_init) rest x h = h
has_event-Mirrors (Event.browser_render text) rest x h = h
has_event-Mirrors (Event.file_change path) rest x h = h
has_event-Mirrors (Event.view_action action) rest x h = h
has_event-Mirrors (Event.view_init) rest x h = h
has_event-Mirrors (Event.view_update text) rest x h = h
has_event-Mirrors (Event.view_render text) rest x h = h
has_event-Mirrors Event.view_render_app_exit rest x h = tt

view_receives_at-Mirrors :
    (calling es : List Event) (x : System)
    → x.to_view ≡ es
    → Mirrors x
    → MirrorsAfter (view_receives_at calling es x)
unfolding view_receives_at Mirrors MirrorsAfter drawn
view_receives_at-Mirrors [] [] x q h = tt
view_receives_at-Mirrors (c ∷ calling) es x q h = tt
view_receives_at-Mirrors [] (e ∷ es) x q h =
    has_event-Mirrors e es x
      (subst (λ queue. Shows x.presenter (drawn (queue ++ x.saying) x.view.panel)) q h)

-- The view's own steps leave the panel as it is.
SamePanel : View → Option View → Type 0
SamePanel v none = Unit
SamePanel v (some w) = w.panel ≡ v.panel

on_thread-Mirrors :
    (calling : List Event) (v : Option View) (sent : List Event) (x : System)
    → SamePanel x.view v
    → Mirrors x
    → MirrorsAfter (on_thread calling v sent x)
unfolding on_thread SamePanel Mirrors MirrorsAfter has_view
on_thread-Mirrors [] none sent x same h = tt
on_thread-Mirrors (c ∷ calling) v sent x same h = tt
on_thread-Mirrors [] (some v) sent x same h = rw same h

if-SamePanel :
    (test : Bool) (o p : Option View) (v : View)
    → SamePanel v o
    → SamePanel v p
    → SamePanel v (if test then o else p)
if-SamePanel true o p v h k = h
if-SamePanel false o p v h k = k

if-panel :
    (test : Bool) (v w : View) (q : Panel)
    → v.panel ≡ q
    → w.panel ≡ q
    → (if test then v else w).panel ≡ q
if-panel true v w q h k = h
if-panel false v w q h k = k

blink_step-panel : (micros : ℕ) (v : View) → (blink_step micros v).panel ≡ v.panel
unfolding blink_step
blink_step-panel micros v =
    if-panel (ltb 1_000_000 v.span) _ _ v.panel refl
      (if-panel (ltb 500_000 (v.span + micros)) _ _ v.panel refl refl)

iterate-SamePanel : (now windows : ℕ) (v : View) → SamePanel v (iterate now windows v)
unfolding iterate SamePanel elapsed blink_step
iterate-SamePanel now windows v =
    if-SamePanel (ltb 16_666 (elapsed now v.now / 1_000)) _ _ v
      (if-SamePanel (eqb windows 0) _ _ v tt (
        if-panel v.panel.blink (blink_step (elapsed now v.now / 1_000) (record v { now = now }))
          (record v { now = now }) v.panel
          (blink_step-panel (elapsed now v.now / 1_000) (record v { now = now })) refl))
      refl

move-Mirrors : (m : Move) (x : System) → Mirrors x → MirrorsAfter (move m x)
unfolding move SamePanel click_window close_window MirrorsAfter Mirrors
move-Mirrors Move.presenter_receives x h =
    presenter_receives_at-Mirrors x.saying x.to_presenter x refl h
move-Mirrors Move.presenter_sends x h = presenter_sends_at-Mirrors x.saying x refl h
move-Mirrors (Move.presenter_polls now state) x h =
    presenter_polls_at-Mirrors x.saying now state x refl h
move-Mirrors Move.view_receives x h = view_receives_at-Mirrors x.calling x.to_view x refl h
move-Mirrors Move.view_sends x h = view_sends_at-Mirrors x.calling x h
move-Mirrors (Move.view_ticks now windows) x h =
    on_thread-Mirrors x.calling (iterate now windows x.view) [] x
      (iterate-SamePanel now windows x.view) h
move-Mirrors (Move.clicks_item id) x h = on_thread-Mirrors x.calling _ _ x refl h
move-Mirrors (Move.page_calls payload) x h = on_thread-Mirrors x.calling _ _ x refl h
move-Mirrors Move.clicks_icon x h = on_thread-Mirrors x.calling (some (click_window x)) [] x refl h
move-Mirrors Move.closes x h = on_thread-Mirrors x.calling (some (close_window x)) [] x refl h
move-Mirrors (Move.changes_file name) x h = h
move-Mirrors Move.watcher_sends x h = watcher_sends_at-Mirrors x.changes x h

opened-Mirrors : (text : String) (now : ℕ) → Mirrors (opened text now)
unfolding opened Mirrors Shows Marked drawn Fits same_state
opened-Mirrors text now = ((refl, refl, refl), (refl, refl, refl), refl, refl, inr (inr refl))

then_do-Mirrors :
    (o : Option System) (f : System → Option System)
    → MirrorsAfter o
    → ((y : System) → Mirrors y → MirrorsAfter (f y))
    → MirrorsAfter (then_do o f)
unfolding then_do MirrorsAfter
then_do-Mirrors none f h k = tt
then_do-Mirrors (some y) f h k = k y h

moves-Mirrors : (ms : List Move) (x : System) → Mirrors x → MirrorsAfter (moves ms x)
unfolding moves MirrorsAfter
moves-Mirrors [] x h = h
moves-Mirrors (m ∷ ms) x h =
    then_do-Mirrors (move m x) (λ y. moves ms y) (move-Mirrors m x h) (λ y k. moves-Mirrors ms y k)

settled : (o : Option System) (x : System) → o ≡ some x → MirrorsAfter o → Mirrors x
unfolding MirrorsAfter
settled none x e h = absurd cc
settled (some y) x e h = subst Mirrors (some-injective y x e) h

-- Whenever nothing is on its way from the presenter, the menu and the tray offer to start a service
-- that the presenter knows as stopped, and to stop or restart one that it knows as started, and
-- nothing else; the title names that state and blinks unless it is started; and the marked item is
-- that of the presenter's file, if the file has an item and any is marked.
pub moves-Shows :
    (text : String) (now : ℕ) (ms : List Move) (x : System)
    → moves ms (opened text now) ≡ some x
    → x.to_view ≡ []
    → x.saying ≡ []
    → Shows x.presenter x.view.panel
unfolding Mirrors drawn
moves-Shows text now ms x e none_queued none_said =
    subst (λ queue. Shows x.presenter (drawn queue x.view.panel)) {x = x.to_view ++ x.saying}
      {y = []} (rw (none_queued, none_said) refl)
      (settled _ x e (moves-Mirrors ms (opened text now) (opened-Mirrors text now)))
