-- ===== src/Ui/Presenter.antt =====
-- ui/src/usecase/presenter.rs: the loop between the view, the watcher and the service. What a step
-- sends, and what it does to the service, are lists.
use kinbridge_server.Prelude.{ℕ, String, List, [], ◌∷◌, ltb, if◌then◌else◌, ◌==◌, string_eq}
use kinbridge_server.Time.{elapsed, as_millis}
use kinbridge_server.Ui.{
  Event, DesktopServiceState, unknown, browser_action, browser_init, browser_update, browser_render,
  file_change, view_action, view_init, view_update, view_render, view_render_app_exit,
  view_render_service_state, same_state,
}
use kinbridge_server.Ui.Service.{Action, start, stop, restart, pause}

pub record Presenter : Type 0 where
  pub service_state : DesktopServiceState
  pub file : String
  pub now : ℕ

pub record Said : Type 0 where
  pub presenter : Presenter
  pub messages : List Event
  pub actions : List Action

unfoldable pub update_of : Presenter → Event
update_of p = browser_update "file" p.file

-- Before the loop, which begins with a message to the view.
unfoldable pub create : ℕ → Said
create now = record {
  presenter = record { service_state = unknown; file = "hbbs.out"; now = now };
  messages = view_render_service_state unknown ∷ [];
  actions = [];
}

unfoldable pub act : Action → Presenter → Said
act a p = record { presenter = p; messages = []; actions = a ∷ [] }

unfoldable pub tell : Event → Presenter → Said
tell e p = record { presenter = p; messages = e ∷ []; actions = [] }

unfoldable pub quiet : Presenter → Said
quiet p = record { presenter = p; messages = []; actions = [] }

-- Any other text of a menu item is the name of a file.
unfoldable pub view_action_step : String → Presenter → Said
unfolding act tell update_of
view_action_step action p =
    if action == "start"
    then act start p
    else if action == "stop"
    then act stop p
    else if action == "restart"
    then act restart p
    else if action == "pause"
    then act pause p
    else if action == "exit"
    then tell view_render_app_exit p
    else tell (update_of (record p { file = action })) (record p { file = action })

unfoldable pub receive : Event → Presenter → Said
unfolding view_action_step act tell quiet update_of
receive browser_init p = tell (update_of p) p
receive (browser_action action) p = if action == "restart" then act restart p else quiet p
receive (file_change path) p = if path == p.file then tell (update_of p) p else quiet p
receive (view_action action) p = view_action_step action p
receive (browser_update action data_text) p = quiet p
receive (browser_render text) p = quiet p
receive view_init p = quiet p
receive (view_update text) p = quiet p
receive (view_render text) p = quiet p
receive view_render_app_exit p = quiet p
receive (view_render_service_state state) p = quiet p

-- After the events of a round: once a second the service is asked for its state.
unfoldable pub poll : ℕ → DesktopServiceState → Presenter → Said
unfolding tell quiet same_state
poll now state p =
    if ltb 999 (as_millis (elapsed now p.now))
    then if same_state state p.service_state
      then quiet (record p { now = now })
      else tell (view_render_service_state state) (record p { now = now; service_state = state })
    else quiet p
