-- ===== src/RelayServer/Transfer/Seconds.antt =====
-- The entry of a relay in USAGE, second by second.
use kinbridge_server.Prelude.{
  ℕ, ◌+◌, ◌*◌, ◌≤◌, ◌≡◌, true, false, List, [], ◌∷◌, Option, none, some, String, leb, arith, inl,
  inr, string_eq, Bool-cases,
}
use kinbridge_server.Dict.{Dict, lookup, contains}
use kinbridge_server.Dict.Laws.{lookup-insert_self}
use kinbridge_server.Time.{elapsed, as_millis}
use kinbridge_server.RelayServer.{Usage}
use kinbridge_server.RelayServer.Transfer.{
  Terms, Moment, Pick, from_peer, from_stream, tick, Transfer, Outcome, going, ended, timed_out,
  send_failed, usize, pick_step, count_frame, check_second, after_pick, measured, figures,
  relay_round, next_round, relay_rounds, Round,
}

-- What USAGE shows of a relay: the time of its last account and its highest speed, which is no lower
-- than the last one.
abbrev pub Shown : Option Usage → ℕ → ℕ → Type 0
Shown none elapsed_ms highest_s = true ≡ false
Shown (some (ms, total, highest, speed)) elapsed_ms highest_s =
    (ms ≡ elapsed_ms) × (highest ≡ highest_s) × (speed ≤ highest)

-- The accounts at a time: the seconds counted are no more than have passed since `start`.
pub record IsAccounted (start now : ℕ) (c : Terms) (r : Transfer) (usage : Dict String Usage)
    : Type 0 where
  pub shown : Shown (lookup c.id usage) r.elapsed_ms r.highest_s
  pub counted : 1_000_000 * r.elapsed_ms + start ≤ r.tm
  pub past : r.tm ≤ now

-- The clock does not go back.
abbrev pub Rising : ℕ → List (Moment × Pick) → Type 0
Rising now [] = Unit
Rising now ((m, p) ∷ rest) = (now ≤ m.now) × Rising m.now rest

abbrev pub end_time : ℕ → List (Moment × Pick) → ℕ
end_time now [] = now
end_time now ((m, p) ∷ rest) = end_time m.now rest

end_time-le : (now : ℕ) (picks : List (Moment × Pick)) → Rising now picks → now ≤ end_time now picks
end_time-le now [] h = omega arith
end_time-le now ((m, p) ∷ rest) h = omega (arith, end_time-le m.now rest h.1, h.0)

module _ (start : ℕ) (c : Terms) where
  pick_step-IsAccounted :
      (now : ℕ) (m : Moment) (p : Pick) (r : Transfer) (usage : Dict String Usage)
      → now ≤ m.now
      → IsAccounted start now c r usage
      → IsAccounted start m.now c (pick_step m p r).1 usage
  unfolding pick_step count_frame
  pick_step-IsAccounted now m (from_peer none) r usage h k = record {
    shown = k.shown;
    counted = k.counted;
    past = omega (arith, k.past);
  }
  pick_step-IsAccounted now m (from_peer (some bytes)) r usage h k = record {
    shown = k.shown;
    counted = k.counted;
    past = omega (arith, k.past);
  }
  pick_step-IsAccounted now m (from_stream none) r usage h k = record {
    shown = k.shown;
    counted = k.counted;
    past = omega (arith, k.past);
  }
  pick_step-IsAccounted now m (from_stream (some bytes)) r usage h k = record {
    shown = k.shown;
    counted = k.counted;
    past = omega (arith, k.past);
  }
  pick_step-IsAccounted now m tick r usage h k = record {
    shown = k.shown;
    counted = k.counted;
    past = omega (arith, k.past);
  }

  measured-counted :
      (m : Moment) (n : ℕ) (r : Transfer)
      → 1_000_000 * n + r.tm ≤ m.now
      → 1_000_000 * r.elapsed_ms + start ≤ r.tm
      → 1_000_000 * (measured c m n r).elapsed_ms + start ≤ m.now
  unfolding measured usize
  measured-counted m n r h k = omega arith

  measured-Shown :
      (m : Moment) (n : ℕ) (r : Transfer)
      → Shown
          (some (figures n r (measured c m n r)))
          (measured c m n r).elapsed_ms
          (measured c m n r).highest_s
  unfolding measured figures
  measured-Shown m n r = ground arith

  check_second-IsAccounted :
      (m : Moment) (n : ℕ) (r : Transfer) (usage : Dict String Usage)
      → 1_000_000 * n + r.tm ≤ m.now
      → IsAccounted start m.now c r usage
      → IsAccounted start m.now c (check_second c m n r usage).1 (check_second c m n r usage).2
  unfolding check_second
  check_second-IsAccounted m n r usage h k = elim (Bool-cases (leb 1000 n)) [
    | inr e ↦ rw e k
    | inl e ↦ elim (Bool-cases (contains c.ip m.blocklist)) [
      | inl f ↦ rw (e, f) k
      | inr f ↦
          rw (e, f)
            (record {
              shown =
                  rw (lookup-insert_self c.id (figures n r (measured c m n r)) usage)
                    (measured-Shown m n r);
              counted = measured-counted m n r h k.counted;
              past = omega arith;
            })
    ]
  ]

  whole_ms : (now tm : ℕ) → tm ≤ now → 1_000_000 * usize (as_millis (elapsed now tm)) + tm ≤ now
  unfolding usize as_millis elapsed
  whole_ms now tm h = omega arith

  after_pick-IsAccounted :
      (m : Moment) (x : Outcome × Transfer) (usage : Dict String Usage)
      → IsAccounted start m.now c x.1 usage
      → IsAccounted start m.now c (after_pick c m x usage).1 (after_pick c m x usage).2
  unfolding after_pick
  after_pick-IsAccounted m (going, r) usage k =
      check_second-IsAccounted m _ r usage (whole_ms m.now r.tm k.past) k
  after_pick-IsAccounted m (ended, r) usage k = k
  after_pick-IsAccounted m (timed_out, r) usage k = k
  after_pick-IsAccounted m (send_failed, r) usage k = k

  later :
      (now later : ℕ) (r : Transfer) (usage : Dict String Usage)
      → now ≤ later
      → IsAccounted start now c r usage
      → IsAccounted start later c r usage
  later now t r usage h k = record {
    shown = k.shown;
    counted = k.counted;
    past = omega (arith, k.past);
  }

  next_round-IsAccounted :
      (now end : ℕ) (go_on : Transfer → Dict String Usage → Round) (x : Round)
      → now ≤ end
      → IsAccounted start now c x.1 x.2
      → ((r : Transfer) (usage : Dict String Usage)
          → IsAccounted start now c r usage
          → IsAccounted start end c (go_on r usage).1 (go_on r usage).2)
      → IsAccounted start end c (next_round go_on x).1 (next_round go_on x).2
  unfolding next_round
  next_round-IsAccounted now end go_on (going, r, usage) h k rest = rest r usage k
  next_round-IsAccounted now end go_on (ended, r, usage) h k rest = later now end r usage h k
  next_round-IsAccounted now end go_on (timed_out, r, usage) h k rest = later now end r usage h k
  next_round-IsAccounted now end go_on (send_failed, r, usage) h k rest = later now end r usage h k

  -- Over any rounds with a clock that does not go back, and where no one else writes the relay's entry
  -- of USAGE: the entry is there and shows the counted time and the highest speed, no lower than the
  -- last one, and the time counted is no more than has passed since the relay began.
  pub relay_rounds-IsAccounted :
      (picks : List (Moment × Pick)) (now : ℕ) (r : Transfer) (usage : Dict String Usage)
      → Rising now picks
      → IsAccounted start now c r usage
      → IsAccounted start
          (end_time now picks)
          c
          (relay_rounds c picks r usage).1
          (relay_rounds c picks r usage).2
  unfolding relay_rounds relay_round
  relay_rounds-IsAccounted [] now r usage h k = k
  relay_rounds-IsAccounted ((m, p) ∷ rest) now r usage h k =
      next_round-IsAccounted m.now (end_time m.now rest) (relay_rounds c rest)
        (relay_round c m p r usage) (end_time-le m.now rest h.1)
        (after_pick-IsAccounted m (pick_step m p r) usage
          (pick_step-IsAccounted now m p r usage h.0 k))
        (λ r' u k'. relay_rounds-IsAccounted rest m.now r' u h.1 k')
