-- ===== src/Examples/Limits.antt =====
-- The theorems on limits and choices, at concrete inputs.
use mathlib.Core.Quot.{Quot}
use kinbridge_server.Blocker.Order.{answer, attempt, attempts_commute}
use kinbridge_server.Prelude.{
  Bool, true, false, eq_iff, ◌≢◌, ℕ, ◌≤◌, ◌≡◌, refl, String, List, [], ◌∷◌, some, string_eq, arith,
}
use kinbridge_server.Dict.{lookup}
use kinbridge_server.Blocker.{IpBlock, IpBlockMap}
use kinbridge_server.Blocker.Burst.{allowed_count, Within, burst_limit, burst_limit_new}
use kinbridge_server.Server.Register.Rate.{passed, register_pk_rate}
use kinbridge_server.Server.State.{PunchReqEntry}
use kinbridge_server.Server.Punch.Log.{record_punch}
use kinbridge_server.Server.Punch.Spacing.{IsSpaced, Falling, record_punch-IsSpaced}

-- An address that has used up its attempts at second 100.
abbrev busy : IpBlock
busy = record { count = 30; count_tm = 100_000_000_000; ids = "b" ∷ []; ids_tm = 100_000_000_000 }

abbrev table : IpBlockMap
table = ("1.1", busy) ∷ []

abbrev attempts : List (ℕ × String)
attempts = (101_000_000_000, "b") ∷ (102_000_000_000, "c") ∷ (103_000_000_000, "d") ∷ []

busy_found : lookup "1.1" table ≡ some busy
unfolding lookup
busy_found = refl

attempts-Within : Within 101_000_000_000 attempts
attempts-Within =
    ((omega arith, omega arith), ((omega arith, omega arith), ((omega arith, omega arith), tt)))

burst_limit_example : allowed_count "1.1" attempts table ≤ 31
burst_limit_example =
    burst_limit 101_000_000_000 "1.1" attempts table busy busy_found (omega arith) attempts-Within

burst_limit_new_example : allowed_count "2.2" attempts table ≤ 32
unfolding lookup
burst_limit_new_example = burst_limit_new 101_000_000_000 "2.2" attempts table refl attempts-Within

register_pk_rate_example :
    passed
      (7_000_000_000 ∷ 8_000_000_000 ∷ 9_000_000_000 ∷ 10_000_000_000 ∷ [])
      (record { count = 1; tm = 6_500_000_000 })
    ≤ 3
register_pk_rate_example =
    register_pk_rate 7_000_000_000
      (7_000_000_000 ∷ 8_000_000_000 ∷ 9_000_000_000 ∷ 10_000_000_000 ∷ [])
      (record { count = 1; tm = 6_500_000_000 })
      (
        (omega arith, omega arith),
        (
          (omega arith, omega arith),
          ((omega arith, omega arith), ((omega arith, omega arith), tt)),
        ),
      )

abbrev asked : List PunchReqEntry
asked = record { tm = 5_000_000_000; from_ip = "1.1"; to_ip = "2.2"; to_id = "b" } ∷ []

record_punch-IsSpaced_example :
    IsSpaced (record_punch 70_000_000_000 "1.1" "2.2" "b" asked)
    × Falling 70_000_000_000 (record_punch 70_000_000_000 "1.1" "2.2" "b" asked)
record_punch-IsSpaced_example =
    record_punch-IsSpaced 70_000_000_000 "1.1" "2.2" "b" asked (omega arith, tt) (tt, tt)

false≢true : ◌≡◌ {A = Bool} false true → ⊥
false≢true e = cc

different : ◌≢◌ {A = String} "1.1" "2.2"
different e = false≢true ((eq_iff "1.1" "2.2").1 e)

attempts_commute_example :
    (answer 102_000_000_000 "2.2" "b" (attempt 101_000_000_000 "1.1" "c" (Quot.mk table))
      ≡ answer 102_000_000_000 "2.2" "b" (Quot.mk table))
    × (answer 101_000_000_000 "1.1" "c" (attempt 102_000_000_000 "2.2" "b" (Quot.mk table))
        ≡ answer 101_000_000_000 "1.1" "c" (Quot.mk table))
    × (attempt 102_000_000_000 "2.2" "b" (attempt 101_000_000_000 "1.1" "c" (Quot.mk table))
        ≡ attempt 101_000_000_000 "1.1" "c" (attempt 102_000_000_000 "2.2" "b" (Quot.mk table)))
attempts_commute_example =
    attempts_commute 101_000_000_000 102_000_000_000 "1.1" "2.2" "c" "b" different (Quot.mk table)
