-- ===== src/Server/Register/Rate.antt =====
-- `next_reg_pk`, the rate limit of one Peer: how many attempts within a window it lets through.
use kinbridge_server.Prelude.{
  ℕ, ◌+◌, ◌≤◌, ◌<◌, ◌≡◌, List, [], ◌∷◌, Option, none, some, arith, All, Option-cases, inl, inr,
}
use kinbridge_server.Peers.{RegPk}
use kinbridge_server.Server.Register.{next_reg_pk}

-- The counter after an attempt, which a refusal leaves alone, and what the attempt adds to a count.
abbrev pub after_attempt : RegPk → Option RegPk → RegPk
after_attempt q none = q
after_attempt q (some q') = q'

abbrev pub one_if_some : Option RegPk → ℕ
one_if_some none = 0
one_if_some (some q) = 1

-- How many attempts at the given times get through.
abbrev pub passed : List ℕ → RegPk → ℕ
passed [] q = 0
passed (now ∷ rest) q = let r = next_reg_pk now q in one_if_some r + passed rest (after_attempt q r)

-- All within one window of seven seconds.
abbrev pub Within : ℕ → List ℕ → Type 0
Within start = All (λ (now : ℕ). (start ≤ now) × (now < start + 7_000_000_000))

attempt_step :
    (start now : ℕ) (q : RegPk)
    → start ≤ q.tm
    → (start ≤ now) × (now < start + 7_000_000_000)
    → q.count ≤ 3
    → (start ≤ (after_attempt q (next_reg_pk now q)).tm)
      × (one_if_some (next_reg_pk now q) + q.count ≤ (after_attempt q (next_reg_pk now q)).count)
      × ((after_attempt q (next_reg_pk now q)).count ≤ 3)
unfolding next_reg_pk
attempt_step start now q h t c = ground arith

passed-le :
    (start : ℕ) (times : List ℕ) (q : RegPk)
    → start ≤ q.tm
    → q.count ≤ 3
    → Within start times
    → passed times q + q.count ≤ 3
passed-le start [] q h c w = omega arith
passed-le start (now ∷ rest) q h c w =
    let s = attempt_step start now q h w.0 c in
    omega (arith, passed-le start rest (after_attempt q (next_reg_pk now q)) s.0 s.2 w.1)

-- The first attempt that gets through starts a window, or goes on in one, at its own time.
first_attempt :
    (now : ℕ) (q q' : RegPk)
    → next_reg_pk now q ≡ some q'
    → (q'.tm ≡ now) × (1 ≤ q'.count) × (q'.count ≤ 3)
unfolding next_reg_pk
first_attempt now q q' e = ground arith

-- Whatever an id's counter and its time are, at most three of the attempts that fall into a window
-- of seven seconds get through.
pub register_pk_rate :
    (start : ℕ) (times : List ℕ) (q : RegPk) → Within start times → passed times q ≤ 3
register_pk_rate start [] q w = omega arith
register_pk_rate start (now ∷ rest) q w = elim (Option-cases (next_reg_pk now q)) [
  | inl e ↦ rw e (omega (arith, register_pk_rate start rest q w.1))
  | inr (q', e) ↦
      let f = first_attempt now q q' e in
      rw e (omega (arith, passed-le start rest q' (omega arith) f.2 w.1))
]
