-- ===== src/Ui.antt =====
-- ui/src, the tray interface of the Windows service: what its three parts, the presenter, the view and
-- the watcher, say to each other. ui/src/usecase/view.rs and ui/src/usecase/service.rs.
pub mod Service
pub mod Presenter
pub mod Desktop
pub mod Watcher
pub mod Shown
pub mod System
use kinbridge_server.Prelude.{ℕ, Bool, true, false, String}

pub data DesktopServiceState : Type 0 where
  paused started stopped unknown : DesktopServiceState

pub data Event : Type 0 where
  browser_action : String → Event
  browser_init : Event
  browser_update : String → String → Event
  browser_render file_change view_action : String → Event
  view_init : Event
  view_update view_render : String → Event
  view_render_app_exit : Event
  view_render_service_state : DesktopServiceState → Event

-- `PartialEq`, derived.
unfoldable pub same_state : DesktopServiceState → DesktopServiceState → Bool
same_state paused paused = true
same_state started started = true
same_state stopped stopped = true
same_state unknown unknown = true
same_state _ _ = false

-- `{:?}`.
unfoldable pub state_text : DesktopServiceState → String
state_text paused = "Paused"
state_text started = "Started"
state_text stopped = "Stopped"
state_text unknown = "Unknown"

-- BUFFER, of both channels.
abbrev pub buffer : ℕ
buffer = 10
