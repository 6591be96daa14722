-- ===== src/Ui/System/Locked.antt =====
-- Both channels of the tray interface full, with the presenter and the view waiting for room in them.
use mathlib.Core.Option.{some-injective}
use kinbridge_server.Prelude.{
  ℕ, zero, suc, ◌≢◌, false, ◌≡◌, refl, sym, ap, ◌∙◌, String, List, [], ◌∷◌, ◌++◌, Option, none,
  some, length, ltb, inl, inr, Option-cases,
}
use kinbridge_server.Ui.{Event, DesktopServiceState, view_action, buffer}
use kinbridge_server.Ui.Desktop.{View}
use kinbridge_server.Ui.System.{
  System, Move, presenter_receives, presenter_sends, presenter_polls, view_receives, view_sends,
  view_ticks, clicks_item, page_calls, clicks_icon, closes, changes_file, watcher_sends, move,
  moves,
}
use kinbridge_server.Ui.System.{
  presenter_receives_at, presenter_polls_at, view_receives_at, on_thread, presenter_sends_at,
  view_sends_at, watcher_sends_at, then_do,
}

-- Nothing is waiting anywhere, and the log of hbbs is the file that is shown.
unfoldable pub idle : DesktopServiceState → ℕ → View → System
idle state now v = record {
  presenter = record { service_state = state; file = "hbbs.out"; now = now };
  view = v;
  saying = [];
  calling = [];
  changes = [];
  to_view = [];
  to_presenter = [];
}

-- The log changes while the view's thread is in the window system.
log_lines : ℕ → List Move
log_lines zero = []
log_lines (suc n) =
    changes_file "hbbs.out" ∷ watcher_sends ∷ presenter_receives ∷ presenter_sends ∷ log_lines n

waiting_lines : ℕ → List Move
waiting_lines zero = []
waiting_lines (suc n) = changes_file "hbbs.out" ∷ watcher_sends ∷ waiting_lines n

unfoldable pub log_burst : String → List Move
unfolding log_lines waiting_lines
log_burst id =
    log_lines 10
    ++ changes_file "hbbs.out" ∷ watcher_sends ∷ presenter_receives ∷ waiting_lines 10
    ++ clicks_item id ∷ []

-- Both have something to send, and no room for it.
IsLocked : System → Type 0
IsLocked x =
    (x.saying ≢ [])
    × (x.calling ≢ [])
    × (ltb (length x.to_view) buffer ≡ false)
    × (ltb (length x.to_presenter) buffer ≡ false)

-- The same as before in all but the changes that the watcher has to send.
SameAs : System → System → Type 0
SameAs y x = (z : List Event) × (y ≡ record x { changes = z })

cons_ne : (e : Event) (es : List Event) → e ∷ es ≢ []
cons_ne e es q = absurd cc

-- A move that is not possible leaves nothing to show.
never : (o : Option System) (x y : System) → o ≡ none → o ≡ some y → SameAs y x
never o x y is_none e = cc

-- Each part waits.
presenter_receives_at-waits :
    (saying es : List Event) (x : System) → saying ≢ [] → presenter_receives_at saying es x ≡ none
unfolding presenter_receives_at
presenter_receives_at-waits [] [] x h = refl
presenter_receives_at-waits [] (e ∷ es) x h = absurd (h refl)
presenter_receives_at-waits (s ∷ saying) es x h = refl

presenter_polls_at-waits :
    (saying : List Event) (now : ℕ) (state : DesktopServiceState) (x : System)
    → saying ≢ []
    → presenter_polls_at saying now state x ≡ none
unfolding presenter_polls_at
presenter_polls_at-waits [] now state x h = absurd (h refl)
presenter_polls_at-waits (s ∷ saying) now state x h = refl

view_receives_at-waits :
    (calling es : List Event) (x : System) → calling ≢ [] → view_receives_at calling es x ≡ none
unfolding view_receives_at
view_receives_at-waits [] [] x h = refl
view_receives_at-waits [] (e ∷ es) x h = absurd (h refl)
view_receives_at-waits (c ∷ calling) es x h = refl

on_thread-waits :
    (calling : List Event) (v : Option View) (sent : List Event) (x : System)
    → calling ≢ []
    → on_thread calling v sent x ≡ none
unfolding on_thread
on_thread-waits [] v sent x h = absurd (h refl)
on_thread-waits (c ∷ calling) v sent x h = refl

presenter_sends_at-waits :
    (es : List Event) (x : System)
    → ltb (length x.to_view) buffer ≡ false
    → presenter_sends_at es x ≡ none
unfolding presenter_sends_at
presenter_sends_at-waits [] x full = refl
presenter_sends_at-waits (e ∷ es) x full = rw full refl

view_sends_at-waits :
    (es : List Event) (x : System)
    → ltb (length x.to_presenter) buffer ≡ false
    → view_sends_at es x ≡ none
unfolding view_sends_at
view_sends_at-waits [] x full = refl
view_sends_at-waits (e ∷ es) x full = rw full refl

watcher_sends_at-waits :
    (es : List Event) (x : System)
    → ltb (length x.to_presenter) buffer ≡ false
    → watcher_sends_at es x ≡ none
unfolding watcher_sends_at
watcher_sends_at-waits [] x full = refl
watcher_sends_at-waits (e ∷ es) x full = rw full refl

move-SameAs : (m : Move) (x y : System) → IsLocked x → move m x ≡ some y → SameAs y x
unfolding move IsLocked SameAs
move-SameAs presenter_receives x y l e = never _ x y (presenter_receives_at-waits _ _ x l.0) e
move-SameAs presenter_sends x y l e = never _ x y (presenter_sends_at-waits _ x l.2) e
move-SameAs (presenter_polls now state) x y l e =
    never _ x y (presenter_polls_at-waits _ now state x l.0) e
move-SameAs view_receives x y l e = never _ x y (view_receives_at-waits _ _ x l.1) e
move-SameAs view_sends x y l e = never _ x y (view_sends_at-waits _ x l.3) e
move-SameAs (view_ticks now windows) x y l e = never _ x y (on_thread-waits _ _ _ x l.1) e
move-SameAs (clicks_item id) x y l e = never _ x y (on_thread-waits _ _ _ x l.1) e
move-SameAs (page_calls payload) x y l e = never _ x y (on_thread-waits _ _ _ x l.1) e
move-SameAs clicks_icon x y l e = never _ x y (on_thread-waits _ _ _ x l.1) e
move-SameAs closes x y l e = never _ x y (on_thread-waits _ _ _ x l.1) e
move-SameAs (changes_file name) x y l e = (_, sym (some-injective _ _ e))
move-SameAs watcher_sends x y l e = never _ x y (watcher_sends_at-waits _ x l.3) e

SameAs-IsLocked : (x y : System) → SameAs y x → IsLocked x → IsLocked y
unfolding SameAs IsLocked
SameAs-IsLocked x y (c, e) l = rw e l

SameAs-trans : (x y z : System) → SameAs y x → SameAs z y → SameAs z x
unfolding SameAs
SameAs-trans x y z (c, e) (d, f) = (d, f ∙ ap (λ (s : System). record s { changes = d }) e)

moves-SameAs : (ms : List Move) (x y : System) → IsLocked x → moves ms x ≡ some y → SameAs y x
unfolding moves SameAs
moves-SameAs [] x y l e = (x.changes, sym (some-injective x y e))
moves-SameAs (m ∷ ms) x y l e = elim (Option-cases (move m x)) [
  | inl is_none ↦ never (moves (m ∷ ms) x) x y (ap (λ o. then_do o (λ z. moves ms z)) is_none) e
  | inr (z, got) ↦
      let same = move-SameAs m x z l got in
      SameAs-trans x z y same (
        moves-SameAs ms z y (SameAs-IsLocked x z same l)
          (sym (ap (λ o. then_do o (λ z. moves ms z)) got) ∙ e))
]

-- When the log of hbbs changes twenty-one times while the window system keeps the view's thread, and
-- an item of the menu is clicked then, whatever is tried afterwards leaves the view as it was before
-- all that, and the click unsent.
pub log_burst_locks :
    (state : DesktopServiceState) (now : ℕ) (v : View) (id : String) (later : List Move)
    (x : System)
    → moves (log_burst id ++ later) (idle state now v) ≡ some x
    → (x.view ≡ v) × (x.calling ≡ view_action id ∷ [])
unfolding moves log_burst idle IsLocked SameAs
log_burst_locks state now v id later x e =
    let same = moves-SameAs later _ x (cons_ne _ _, cons_ne _ _, refl, refl) e in
    (ap (λ s. s.view) same.1, ap (λ s. s.calling) same.1)
