-- ===== src/RelayServer/Transfer/Accounts.antt =====
-- The accounts of a relay: what USAGE shows of it.
use kinbridge_server.Prelude.{
  ℕ, ◌+◌, ◌*◌, ◌≡◌, ◌≢◌, refl, List, [], ◌∷◌, Option, none, some, String, length, arith, ◌⊎◌, inl,
  inr, string_eq, ap, ◌∙◌,
}
use kinbridge_server.Dict.{Dict}
use kinbridge_server.Message.{Bytes}
use kinbridge_server.RelayServer.{Usage}
use kinbridge_server.RelayServer.Transfer.{
  Terms, Moment, Pick, from_peer, from_stream, tick, Transfer, Outcome, going, ended, timed_out,
  send_failed, usize, pick_step, count_frame, check_second, after_pick, measured, relay_round,
  next_round, relay_rounds, Round,
}

-- The bits of a frame.
abbrev bits_of : Option Bytes → ℕ
bits_of none = 0
bits_of (some bytes) = length bytes * 8

-- The bits received, in both directions.
abbrev pub bits : List (Moment × Pick) → ℕ
bits [] = 0
bits ((m, from_peer o) ∷ rest) = bits_of o + bits rest
bits ((m, from_stream o) ∷ rest) = bits_of o + bits rest
bits ((m, tick) ∷ rest) = bits rest

abbrev bits_one : Pick → ℕ
bits_one (from_peer o) = bits_of o
bits_one (from_stream o) = bits_of o
bits_one tick = 0

-- Counted up to the overflow of a usize, or over.
abbrev pub Counts : Outcome → ℕ → ℕ → Type 0
Counts o total sum = (usize total ≡ usize sum) ⊎ (o ≢ going)

wrap : (t b : ℕ) → usize (usize (t + usize b)) ≡ usize (t + b)
unfolding usize
wrap t b = omega arith

wrap_sum : (t a b : ℕ) → usize t ≡ usize a → usize (t + b) ≡ usize (a + b)
unfolding usize
wrap_sum t a b e = omega (arith, e)

pick_step-total :
    (m : Moment) (p : Pick) (r : Transfer)
    → Counts (pick_step m p r).0 (pick_step m p r).1.total (r.total + bits_one p)
unfolding pick_step count_frame
pick_step-total m (from_peer none) r = inr (λ h. cc)
pick_step-total m (from_peer (some bytes)) r = inl (wrap r.total (length bytes * 8))
pick_step-total m (from_stream none) r = inr (λ h. cc)
pick_step-total m (from_stream (some bytes)) r = inl (wrap r.total (length bytes * 8))
pick_step-total m tick r = inl (ap usize (omega arith))

check_second-total :
    (c : Terms) (m : Moment) (n : ℕ) (r : Transfer) (usage : Dict String Usage)
    → (check_second c m n r usage).1.total ≡ r.total
unfolding check_second measured
check_second-total c m n r usage = ground arith

after_pick-total :
    (c : Terms) (m : Moment) (x : Outcome × Transfer) (usage : Dict String Usage) (sum : ℕ)
    → Counts x.0 x.1.total sum
    → Counts (after_pick c m x usage).0 (after_pick c m x usage).1.total sum
unfolding after_pick
after_pick-total c m (going, r) usage sum (inl e) =
    inl (ap usize (check_second-total c m _ r usage) ∙ e)
after_pick-total c m (going, r) usage sum (inr over) = absurd (over refl)
after_pick-total c m (ended, r) usage sum k = k
after_pick-total c m (timed_out, r) usage sum k = k
after_pick-total c m (send_failed, r) usage sum k = k

module _ (go_on : Transfer → Dict String Usage → Round) (sum more : ℕ) where
  next_round-total :
      (x : Round)
      → Counts x.0 x.1.total sum
      → ((r : Transfer) (usage : Dict String Usage)
          → Counts (go_on r usage).0 (go_on r usage).1.total (r.total + more))
      → Counts (next_round go_on x).0 (next_round go_on x).1.total (sum + more)
  unfolding next_round
  next_round-total (going, r, usage) (inl e) rest = elim (rest r usage) [
    | inl f ↦ inl (f ∙ wrap_sum r.total sum more e)
    | inr over ↦ inr over
  ]
  next_round-total (going, r, usage) (inr over) rest = absurd (over refl)
  next_round-total (ended, r, usage) k rest = inr (λ h. cc)
  next_round-total (timed_out, r, usage) k rest = inr (λ h. cc)
  next_round-total (send_failed, r, usage) k rest = inr (λ h. cc)

bits-cons :
    (m : Moment) (p : Pick) (rest : List (Moment × Pick)) (t : ℕ)
    → t + bits_one p + bits rest ≡ t + bits ((m, p) ∷ rest)
bits-cons m (from_peer o) rest t = omega arith
bits-cons m (from_stream o) rest t = omega arith
bits-cons m tick rest t = omega arith

-- While a relay goes on its `total` is eight times the number of bytes that came from both sides, up
-- to the overflow of a usize.
pub relay_rounds-total :
    (c : Terms) (picks : List (Moment × Pick)) (r : Transfer) (usage : Dict String Usage)
    → Counts
        (relay_rounds c picks r usage).0
        (relay_rounds c picks r usage).1.total
        (r.total + bits picks)
unfolding relay_rounds relay_round
relay_rounds-total c [] r usage = inl (ap usize (omega arith))
relay_rounds-total c ((m, p) ∷ rest) r usage = rw (← bits-cons m p rest r.total) (
    next_round-total (relay_rounds c rest) (r.total + bits_one p) (bits rest)
      (relay_round c m p r usage)
      (after_pick-total c m (pick_step m p r) usage (r.total + bits_one p) (pick_step-total m p r))
      (relay_rounds-total c rest))
