-- ===== src/RelayServer/Transfer/Pipes.antt =====
-- What a relay carries: each direction is a pipe.
use mathlib.Core.List.{append_assoc, append-nil}
use kinbridge_server.Prelude.{
  ℕ, ◌≡◌, ◌≢◌, refl, sym, ap, ◌∙◌, List, [], ◌∷◌, ◌++◌, Option, none, some, String, is_empty, arith,
  ◌⊎◌, inl, inr, if◌then◌else◌, Bool-cases,
}
use kinbridge_server.Dict.{Dict}
use kinbridge_server.Message.{Bytes}
use kinbridge_server.RelayServer.{Usage}
use kinbridge_server.RelayServer.Transfer.{
  Terms, Moment, Pick, from_peer, from_stream, tick, Transfer, Outcome, going, ended, timed_out,
  send_failed, pick_step, forward, sent, check_second, after_pick, measured, relay_round,
  next_round, relay_rounds, Round,
}

-- The direction: what goes to the arriving stream, or to the one that waited.
pub data Side : Type 0 where
  stream_side peer_side : Side

abbrev pub output : Side → Transfer → List Bytes
output stream_side r = r.to_stream
output peer_side r = r.to_peer

-- A frame that has bytes.
abbrev pub frame : Option Bytes → List Bytes
frame none = []
frame (some bytes) = if is_empty bytes then [] else bytes ∷ []

-- The abstract pipe: the frames that a pick puts into it.
abbrev pub input : Side → Pick → List Bytes
input stream_side (from_peer o) = frame o
input stream_side (from_stream o) = []
input peer_side (from_peer o) = []
input peer_side (from_stream o) = frame o
input side tick = []

abbrev pub inputs : Side → List (Moment × Pick) → List Bytes
inputs side [] = []
inputs side ((m, p) ∷ rest) = input side p ++ inputs side rest

-- What is carried is a beginning of what was put in, and all of it as long as the relay goes on.
abbrev pub Carried : Outcome → List Bytes → List Bytes → List Bytes → Type 0
Carried o before after frames =
    (lost : List Bytes) × (after ++ lost ≡ before ++ frames) × ((lost ≡ []) ⊎ (o ≢ going))

check_second-output :
    (side : Side) (c : Terms) (m : Moment) (n : ℕ) (r : Transfer) (usage : Dict String Usage)
    → output side (check_second c m n r usage).1 ≡ output side r
unfolding check_second measured
check_second-output stream_side c m n r usage = ground arith
check_second-output peer_side c m n r usage = ground arith

-- A frame is sent, or the relay is over.
sent-frame :
    (m : Moment) (bytes : Bytes) (out : List Bytes)
    → Carried (forward m bytes) out (sent m bytes out) (frame (some bytes))
unfolding forward sent
sent-frame m [] out = ([], refl, inl refl)
sent-frame m (b ∷ bytes) out = elim (Bool-cases m.send_ok) [
  | inl e ↦ rw e ([], append-nil _, inl refl)
  | inr e ↦ rw e ((b ∷ bytes) ∷ [], refl, inr (λ h. cc))
]

pick_step-Carried :
    (side : Side) (m : Moment) (p : Pick) (r : Transfer)
    → Carried (pick_step m p r).0 (output side r) (output side (pick_step m p r).1) (input side p)
unfolding pick_step
pick_step-Carried stream_side m (from_peer none) r = ([], refl, inl refl)
pick_step-Carried stream_side m (from_peer (some bytes)) r = sent-frame m bytes r.to_stream
pick_step-Carried stream_side m (from_stream none) r = ([], refl, inl refl)
pick_step-Carried stream_side m (from_stream (some bytes)) r = ([], refl, inl refl)
pick_step-Carried stream_side m tick r = ([], refl, inl refl)
pick_step-Carried peer_side m (from_peer none) r = ([], refl, inl refl)
pick_step-Carried peer_side m (from_peer (some bytes)) r = ([], refl, inl refl)
pick_step-Carried peer_side m (from_stream none) r = ([], refl, inl refl)
pick_step-Carried peer_side m (from_stream (some bytes)) r = sent-frame m bytes r.to_peer
pick_step-Carried peer_side m tick r = ([], refl, inl refl)

-- The second's accounts change nothing that was carried.
after_pick-Carried :
    (side : Side) (c : Terms) (m : Moment) (x : Outcome × Transfer) (usage : Dict String Usage)
    (before frames : List Bytes)
    → Carried x.0 before (output side x.1) frames
    → Carried (after_pick c m x usage).0 before (output side (after_pick c m x usage).1) frames
unfolding after_pick
after_pick-Carried side c m (going, r) usage before frames (lost, q, inl e) =
    (lost, ap (λ out. out ++ lost) (check_second-output side c m _ r usage) ∙ q, inl e)
after_pick-Carried side c m (going, r) usage before frames (lost, q, inr over) = absurd (over refl)
after_pick-Carried side c m (ended, r) usage before frames k = k
after_pick-Carried side c m (timed_out, r) usage before frames k = k
after_pick-Carried side c m (send_failed, r) usage before frames k = k

longer :
    (before after lost xs ys : List Bytes)
    → after ++ lost ≡ before ++ xs
    → after ++ (lost ++ ys) ≡ before ++ (xs ++ ys)
longer before after lost xs ys e =
    sym (append_assoc after lost ys) ∙ ap (λ l. l ++ ys) e ∙ append_assoc before xs ys

module _ (side : Side) (go_on : Transfer → Dict String Usage → Round)
    (before xs ys : List Bytes) where
  over :
      (o : Outcome) (r : Transfer)
      → o ≢ going
      → Carried o before (output side r) xs
      → Carried o before (output side r) (xs ++ ys)
  over o r h (lost, q, e) = (lost ++ ys, longer before (output side r) lost xs ys q, inr h)

  next_round-Carried :
      (x : Round)
      → Carried x.0 before (output side x.1) xs
      → ((r : Transfer) (usage : Dict String Usage)
          → Carried (go_on r usage).0 (output side r) (output side (go_on r usage).1) ys)
      → Carried (next_round go_on x).0 before (output side (next_round go_on x).1) (xs ++ ys)
  unfolding next_round
  next_round-Carried (going, r, usage) (lost, q, inr e) rest = absurd (e refl)
  next_round-Carried (going, r, usage) (lost, q, inl e) rest =
      let k = rest r usage in
      let all : output side r ≡ before ++ xs =
        sym (append-nil (output side r)) ∙ ap (λ l. output side r ++ l) (sym e) ∙ q in
      (k.0, k.1 ∙ ap (λ l. l ++ ys) all ∙ append_assoc before xs ys, k.2)
  next_round-Carried (ended, r, usage) k rest = over ended r (λ h. cc) k
  next_round-Carried (timed_out, r, usage) k rest = over timed_out r (λ h. cc) k
  next_round-Carried (send_failed, r, usage) k rest = over send_failed r (λ h. cc) k

-- In either direction the relay refines a pipe: after any rounds, what was sent is the frames that
-- came, the empty ones left out, in their order, up to some that are lost; and none is lost while the
-- relay goes on.
pub relay_rounds-Carried :
    (side : Side) (c : Terms) (picks : List (Moment × Pick)) (r : Transfer)
    (usage : Dict String Usage)
    → Carried
        (relay_rounds c picks r usage).0
        (output side r)
        (output side (relay_rounds c picks r usage).1)
        (inputs side picks)
unfolding relay_rounds relay_round
relay_rounds-Carried side c [] r usage = ([], refl, inl refl)
relay_rounds-Carried side c ((m, p) ∷ rest) r usage =
    next_round-Carried side (relay_rounds c rest) (output side r) (input side p) (inputs side rest)
      (relay_round c m p r usage)
      (after_pick-Carried side c m (pick_step m p r) usage (output side r) (input side p)
        (pick_step-Carried side m p r))
      (relay_rounds-Carried side c rest)
