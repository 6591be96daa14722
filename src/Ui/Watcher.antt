-- ===== src/Ui/Watcher.antt =====
-- ui/src/usecase/watcher.rs: what is sent for the changes that the file system reports.
use kinbridge_server.Prelude.{
  String, List, [], ◌∷◌, ◌++◌, Option, none, some, if◌then◌else◌, ◌==◌, string_eq,
}
use kinbridge_server.Ui.{Event, file_change}

-- The name of a path without one, or of one that is no text, is empty.
unfoldable pub named : String → List Event
named name = if name == "" then [] else file_change name ∷ []

names : List String → List Event
unfolding named
names [] = []
names (name ∷ rest) = named name ++ names rest

-- `none` is an error that is reported in place of a change, on which the loop returns.
unfoldable pub watch : List (Option (List String)) → List Event
unfolding names
watch [] = []
watch (none ∷ rest) = []
watch (some paths ∷ rest) = names paths ++ watch rest
