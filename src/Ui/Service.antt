-- ===== src/Ui/Service.antt =====
-- ui/src/adapter/service/windows.rs: the commands that are run for the service, and its state. What
-- the Windows service manager says of hbbs is an argument.
use Prim.Native.String.{◌++◌ as append}
use kinbridge_server.Prelude.{String, List, [], ◌∷◌, if◌then◌else◌, ◌==◌, string_eq}
use kinbridge_server.Ui.{DesktopServiceState, started, stopped}

-- `call` runs a text in a command window, `nssm` the service manager with arguments.
pub data Executed : Type 0 where
  call : String → Executed
  nssm : List String → Executed

pub record WindowsDesktopService : Type 0 where
  pub state : DesktopServiceState

unfoldable pub new : WindowsDesktopService
new = record { state = stopped }

join : List String → String
join [] = ""
join (x ∷ []) = x
join (x ∷ y ∷ rest) = append x (append " & " (join (y ∷ rest)))

abbrev start_commands : List String
start_commands =
    "echo." ∷ "%nssm% stop hbbr" ∷ "%nssm% remove hbbr confirm" ∷ "%nssm% stop hbbs"
    ∷ "%nssm% remove hbbs confirm" ∷ "mkdir logs" ∷ "echo." ∷ "service\\run.cmd hbbs" ∷ "echo."
    ∷ "service\\run.cmd hbbr" ∷ "echo." ∷ "@ping 127.1 -n 3 >nul" ∷ []

abbrev stop_commands : List String
stop_commands =
    "echo." ∷ "%nssm% stop hbbr" ∷ "%nssm% remove hbbr confirm" ∷ "echo." ∷ "%nssm% stop hbbs"
    ∷ "%nssm% remove hbbs confirm" ∷ "echo." ∷ "@ping 127.1 -n 3 >nul" ∷ []

abbrev pause_commands : List String
pause_commands =
    "echo." ∷ "%nssm% stop hbbr" ∷ "echo." ∷ "%nssm% stop hbbs" ∷ "echo." ∷ "@ping 127.1 -n 3 >nul"
    ∷ []

-- `status` is the text of the current state of hbbs, or of an error.
unfoldable pub check : String → WindowsDesktopService → WindowsDesktopService
check status s = record s { state = if status == "Running" then started else stopped }

pub data Action : Type 0 where
  start stop restart pause : Action

unfoldable pub commands : Action → List Executed
unfolding join
commands start = call (join start_commands) ∷ []
commands stop = call (join stop_commands) ∷ []
commands restart = nssm ("restart" ∷ "hbbs" ∷ []) ∷ nssm ("restart" ∷ "hbbr" ∷ []) ∷ []
commands pause = call (join pause_commands) ∷ []

-- Each action ends with a `check`, whose status is that after the commands.
unfoldable pub perform :
    Action → String → WindowsDesktopService → WindowsDesktopService × List Executed
unfolding commands check
perform a status s = (check status s, commands a)
