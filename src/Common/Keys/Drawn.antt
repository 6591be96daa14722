-- ===== src/Common/Keys/Drawn.antt =====
-- Which key pair is taken.
use kinbridge_server.Prelude.{
  ℕ, zero, suc, ◌+◌, ◌≤◌, ◌<◌, ◌≡◌, true, false, ◌⊎◌, inl, inr, Bool-cases, eqb, arith,
}
use kinbridge_server.Common.Keys.{Crypto, is_clean, draw}

-- The pair taken is at most `rounds` after the one at hand, all before it have a '/' or ':' in their
-- public key, and it has none unless it is the last that was allowed.
pub draw-first :
    (c : Crypto) (rounds i : ℕ)
    → (i ≤ draw c rounds i)
      × (draw c rounds i ≤ i + rounds)
      × ((j : ℕ) → i ≤ j → j < draw c rounds i → is_clean c j ≡ false)
      × ((is_clean c (draw c rounds i) ≡ true) ⊎ (draw c rounds i ≡ i + rounds))
unfolding draw
draw-first c zero i =
    (omega arith, omega arith, (λ j lo hi. absurd (omega arith)), inr (omega arith))
draw-first c (suc rounds) i =
    let (lo, hi, before, last) = draw-first c rounds (i + 1) in
    elim (Bool-cases (is_clean c i)) [
      | inl e ↦ rw e (omega arith, omega arith, (λ j a b. absurd (omega arith)), inl e)
      | inr e ↦ rw e (
        omega (arith, lo),
        omega (arith, hi),
        (λ j a b. elim (Bool-cases (eqb i j)) [
          | inl q ↦ let same : i ≡ j = ground arith in rw (← same) e
          | inr q ↦ before j (ground arith) b
        ]),
        (elim last [ inl q ↦ inl q | inr q ↦ inr (omega (arith, q)) ]),
      )
    ]
