-- ===== src/RelayServer/Transfer/Limits.antt =====
-- What the limits and the two lists of addresses do to a relay.
use kinbridge_server.Prelude.{
  ℕ, ◌+◌, ◌*◌, ◌^◌, ◌≤◌, ◌<◌, ◌≡◌, ◌≢◌, refl, true, false, List, [], ◌∷◌, ◌++◌, none, some, String,
  leb, arith, ◌⊎◌, inl, inr, string_eq, Bool-cases, ◌∙◌, All,
}
use kinbridge_server.Dict.{Dict, contains}
use kinbridge_server.Time.{elapsed, as_millis}
use kinbridge_server.RelayServer.{Usage}
use kinbridge_server.RelayServer.Transfer.{
  Terms, Moment, Pick, from_peer, from_stream, tick, Transfer, Outcome, going, ended, timed_out,
  send_failed, usize, pick_step, count_frame, LimiterName, blacklist, total_bandwidth, check_second,
  after_pick, relay_round, next_round, relay_rounds, Round,
}

-- The limiters that frames of these sizes ask, the last first: each asks that of LIMIT_SPEED, which
-- the source calls blacklist, and then that of TOTAL_BANDWIDTH.
abbrev slow_uses : List ℕ → List (LimiterName × ℕ)
slow_uses [] = []
slow_uses (nb ∷ sizes) = (total_bandwidth, nb) ∷ (blacklist, nb) ∷ slow_uses sizes

-- Downgraded, and each frame since, when `before` were the uses, went by those two limiters.
pub record IsSlowed (before : List (LimiterName × ℕ)) (r : Transfer) : Type 0 where
  pub downgraded : r.downgrade ≡ true
  pub uses : (sizes : List ℕ) × (r.consumed ≡ slow_uses sizes ++ before)

-- Every moment has the address in the block list, and one is a second or more after `tm`.
abbrev pub BlockedThroughout : String → List (Moment × Pick) → Type 0
BlockedThroughout ip = All (λ (x : Moment × Pick). contains ip x.0.blocklist ≡ true)

abbrev pub Late : ℕ → List (Moment × Pick) → Type 0
Late tm [] = true ≡ false
Late tm ((m, p) ∷ rest) =
    ((tm + 1_000_000_000 ≤ m.now) × (m.now < tm + 2 ^ 64 * 1_000_000)) ⊎ Late tm rest

module _ (c : Terms) where
  pick_step-tm : (m : Moment) (p : Pick) (r : Transfer) → (pick_step m p r).1.tm ≡ r.tm
  unfolding pick_step count_frame
  pick_step-tm m (from_peer none) r = refl
  pick_step-tm m (from_peer (some bytes)) r = refl
  pick_step-tm m (from_stream none) r = refl
  pick_step-tm m (from_stream (some bytes)) r = refl
  pick_step-tm m tick r = refl

  -- A blocked relay ends with its first account, before which `tm` stays.
  after_pick-blocked :
      (m : Moment) (x : Outcome × Transfer) (usage : Dict String Usage)
      → contains c.ip m.blocklist ≡ true
      → ((after_pick c m x usage).0 ≢ going)
        ⊎ (((after_pick c m x usage).1.tm ≡ x.1.tm)
            × (usize (as_millis (elapsed m.now x.1.tm)) < 1000))
  unfolding after_pick check_second
  after_pick-blocked m (going, r) usage b =
      elim (Bool-cases (leb 1000 (usize (as_millis (elapsed m.now r.tm))))) [
        | inl e ↦ inl (rw (e, b) (λ h. cc))
        | inr e ↦ inr (rw e (refl, ground arith))
      ]
  after_pick-blocked m (ended, r) usage b = inl (λ h. cc)
  after_pick-blocked m (timed_out, r) usage b = inl (λ h. cc)
  after_pick-blocked m (send_failed, r) usage b = inl (λ h. cc)

  relay_round-blocked :
      (m : Moment) (p : Pick) (r : Transfer) (usage : Dict String Usage)
      → contains c.ip m.blocklist ≡ true
      → ((relay_round c m p r usage).0 ≢ going)
        ⊎ (((relay_round c m p r usage).1.tm ≡ r.tm)
            × (usize (as_millis (elapsed m.now r.tm)) < 1000))
  unfolding relay_round
  relay_round-blocked m p r usage b =
      let step : (pick_step m p r).1.tm ≡ r.tm = pick_step-tm m p r in
      elim (after_pick-blocked m (pick_step m p r) usage b) [
        | inl over ↦ inl over
        | inr (e, short) ↦ inr (e ∙ step, rw (← step) short)
      ]

  late_enough :
      (now tm : ℕ)
      → tm + 1_000_000_000 ≤ now
      → now < tm + 2 ^ 64 * 1_000_000
      → usize (as_millis (elapsed now tm)) < 1000
      → ⊥
  unfolding usize as_millis elapsed
  late_enough now tm lo hi h = omega arith

  next_round-over :
      (go_on : Transfer → Dict String Usage → Round) (x : Round)
      → x.0 ≢ going
      → (next_round go_on x).0 ≢ going
  unfolding next_round
  next_round-over go_on (going, r, usage) h = absurd (h refl)
  next_round-over go_on (ended, r, usage) h = h
  next_round-over go_on (timed_out, r, usage) h = h
  next_round-over go_on (send_failed, r, usage) h = h

  next_round-blocked :
      (go_on : Transfer → Dict String Usage → Round) (x : Round) (tm : ℕ)
      → (x.0 ≢ going) ⊎ (x.1.tm ≡ tm)
      → ((r : Transfer) (usage : Dict String Usage) → r.tm ≡ tm → (go_on r usage).0 ≢ going)
      → (next_round go_on x).0 ≢ going
  unfolding next_round
  next_round-blocked go_on x tm (inl h) rest = next_round-over go_on x h
  next_round-blocked go_on (going, r, usage) tm (inr e) rest = rest r usage e
  next_round-blocked go_on (ended, r, usage) tm (inr e) rest = λ h. cc
  next_round-blocked go_on (timed_out, r, usage) tm (inr e) rest = λ h. cc
  next_round-blocked go_on (send_failed, r, usage) tm (inr e) rest = λ h. cc

  -- A relay whose address is in the block list does not go on once a round comes a second or more
  -- after its last account.
  pub relay_rounds-blocked :
      (picks : List (Moment × Pick)) (r : Transfer) (usage : Dict String Usage)
      → BlockedThroughout c.ip picks
      → Late r.tm picks
      → (relay_rounds c picks r usage).0 ≢ going
  unfolding relay_rounds relay_round
  relay_rounds-blocked [] r usage b late = cc
  relay_rounds-blocked ((m, p) ∷ rest) r usage b (inl (lo, hi)) =
      next_round-over (relay_rounds c rest) (relay_round c m p r usage)
        (elim (relay_round-blocked m p r usage b.0) [
          | inl over ↦ over
          | inr (e, short) ↦ absurd (late_enough m.now r.tm lo hi short)
        ])
  relay_rounds-blocked ((m, p) ∷ rest) r usage b (inr late) =
      next_round-blocked (relay_rounds c rest) (relay_round c m p r usage) r.tm
        (elim (relay_round-blocked m p r usage b.0) [
          | inl over ↦ inl over
          | inr (e, short) ↦ inr e
        ])
        (λ r' u e. relay_rounds-blocked rest r' u b.1 (rw e late))
