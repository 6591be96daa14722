-- ===== src/Server/SelfTest/Watchdog.antt =====
-- When the test of the server by itself fails.
use mathlib.Core.Path.{subst}
use kinbridge_server.Prelude.{
  ℕ, ◌≡◌, ◌≢◌, ◌↔◌, ◌<◌, ◌⊎◌, refl, sym, ap, inl, inr, Bool, true, false, List, [], ◌∷◌, ◌++◌,
  Option, none, some, ltb, if◌then◌else◌, arith,
}
use kinbridge_server.Net.{SocketAddr}
use kinbridge_server.Time.{elapsed_secs}
use kinbridge_server.Env.{Env}
use kinbridge_server.Message.{Message}
use kinbridge_server.Server.SelfTest.{
  TestEvent, ticked, received, TestFailure, timed_out, send_failed, Testing, test_message, heard_at,
  test_loop,
}

-- The time of an answer that can be read, or of the last one before.
unfoldable pub newer : ℕ → Option Message → ℕ → ℕ
newer now none last = last
newer now (some m) last = now

heard_at-newer :
    (now : ℕ) (answer : Option Message) (last : ℕ)
    → heard_at now answer last ≡ newer now answer last
unfolding heard_at newer
heard_at-newer now none last = refl
heard_at-newer now (some m) last = refl

-- When the last answer came that could be read.
unfoldable pub last_answer : Env → ℕ → List TestEvent → ℕ
unfolding newer
last_answer env last [] = last
last_answer env last (ticked now sends ∷ events) = last_answer env last events
last_answer env last (received now bytes ∷ events) =
    last_answer env (newer now (env.parse_from_bytes bytes) last) events

-- A tick that comes thirteen seconds or more after the last answer, or cannot send.
unfoldable pub Overdue : Env → ℕ → List TestEvent → Type 0
unfolding last_answer
Overdue env last events =
    (before after : List TestEvent) × (now : ℕ) × (sends : Bool) × (events
      ≡ before ++ ticked now sends ∷ after)
    × ((12 < elapsed_secs now (last_answer env last before)) ⊎ (sends ≡ false))

-- A tick ends the test, or what follows it does.
tick_ends :
    (late sends : Bool) (s : Testing) (rest : Option TestFailure × Testing)
    → (late ≡ true) ⊎ (sends ≡ false) ⊎ (rest.0 ≢ none)
    → (if late then (some timed_out, s) else if sends then rest else (some send_failed, s)).0 ≢ none
tick_ends true sends s rest h = λ e. cc
tick_ends false false s rest h = λ e. cc
tick_ends false true s rest (inl e) = cc
tick_ends false true s rest (inr (inl e)) = cc
tick_ends false true s rest (inr (inr h)) = h

ends_tick :
    (late sends : Bool) (s : Testing) (rest : Option TestFailure × Testing)
    → (if late then (some timed_out, s) else if sends then rest else (some send_failed, s)).0 ≢ none
    → (late ≡ true) ⊎ (sends ≡ false) ⊎ (rest.0 ≢ none)
ends_tick true sends s rest h = inl refl
ends_tick false false s rest h = inr (inl refl)
ends_tick false true s rest h = inr (inr h)

is_late : (n : ℕ) → 12 < n → ltb 12 n ≡ true
is_late n h = ground arith

late_is : (n : ℕ) → ltb 12 n ≡ true → 12 < n
late_is n h = ground arith

at_tick :
    (n : ℕ) (sends : Bool) (B : Type 0)
    → ((12 < n) ⊎ (sends ≡ false))
    → (ltb 12 n ≡ true) ⊎ (sends ≡ false) ⊎ B
at_tick n sends B (inl late) = inl (is_late n late)
at_tick n sends B (inr e) = inr (inl e)

-- One event more in front.
later-Overdue :
    (env : Env) (last next : ℕ) (e : TestEvent) (events : List TestEvent)
    → ((before : List TestEvent) → last_answer env last (e ∷ before) ≡ last_answer env next before)
    → Overdue env next events
    → Overdue env last (e ∷ events)
unfolding Overdue
later-Overdue env last next e events step (before, after, now, sends, split, h) = (
  e ∷ before,
  after,
  now,
  sends,
  ap (λ es. e ∷ es) split,
  subst (λ t. (12 < elapsed_secs now t) ⊎ (sends ≡ false)) (sym (step before)) h,
)

module _ (env : Env) (addr : SocketAddr) where
  overdue_ends :
      (before after : List TestEvent) (now : ℕ) (sends : Bool) (s : Testing)
      → ((12 < elapsed_secs now (last_answer env s.last_time_recv before)) ⊎ (sends ≡ false))
      → (test_loop env addr (before ++ ticked now sends ∷ after) s).0 ≢ none
  unfolding test_loop last_answer
  overdue_ends [] after now sends s h =
      tick_ends (ltb 12 (elapsed_secs now s.last_time_recv)) sends s _
        (at_tick (elapsed_secs now s.last_time_recv) sends _ h)
  overdue_ends (ticked t ok ∷ before) after now sends s h =
      tick_ends (ltb 12 (elapsed_secs t s.last_time_recv)) ok s _
        (inr (inr (overdue_ends before after now sends _ h)))
  overdue_ends (received t bytes ∷ before) after now sends s h =
      overdue_ends before after now sends _ (
        subst (λ last. (12 < elapsed_secs now (last_answer env last before)) ⊎ (sends ≡ false))
          (sym (heard_at-newer t (env.parse_from_bytes bytes) s.last_time_recv)) h)

  ends-Overdue :
      (events : List TestEvent) (s : Testing)
      → (test_loop env addr events s).0 ≢ none
      → Overdue env s.last_time_recv events
  unfolding test_loop last_answer
  ends-Overdue [] s h = absurd (h refl)
  ends-Overdue (ticked t ok ∷ events) s h =
      elim (ends_tick (ltb 12 (elapsed_secs t s.last_time_recv)) ok s
        (test_loop env addr events
          (record s { messages = s.messages ++ (test_message, addr) ∷ [] }))
        h) [
          | inl late ↦
              (unfold Overdue in
                ([], events, t, ok, refl, inl (late_is (elapsed_secs t s.last_time_recv) late)))
          | inr (inl e) ↦ (unfold Overdue in ([], events, t, ok, refl, inr e))
          | inr (inr k) ↦
              later-Overdue env s.last_time_recv s.last_time_recv (ticked t ok) events
                (λ before. refl) (ends-Overdue events _ k)
        ]
  ends-Overdue (received t bytes ∷ events) s h =
      later-Overdue env s.last_time_recv (heard_at t (env.parse_from_bytes bytes) s.last_time_recv)
        (received t bytes) events
        (λ before.
          ap (λ last. last_answer env last before)
            (sym (heard_at-newer t (env.parse_from_bytes bytes) s.last_time_recv)))
        (ends-Overdue events _ h)

  -- The loop of the test ends if and only if some tick of its timer comes thirteen seconds or more
  -- after the last answer before it that could be read, or cannot send.
  pub test_loop-Overdue :
      (events : List TestEvent) (s : Testing)
      → Overdue env s.last_time_recv events ↔ ((test_loop env addr events s).0 ≢ none)
  unfolding Overdue
  test_loop-Overdue events s = (
    λ (before, after, now, sends, split, h).
        subst (λ es. (test_loop env addr es s).0 ≢ none) (sym split)
          (overdue_ends before after now sends s h),
    ends-Overdue events s,
  )
