-- ===== src/Server/Punch/Spacing.antt =====
-- The record of punch hole requests does not repeat itself: among 31 neighbours in it, two for the
-- same pair of address and id are at least 60 seconds apart.
use kinbridge_server.Prelude.{
  ℕ, zero, suc, ◌≤◌, ◌≡◌, false, ◌&&◌, String, List, [], ◌∷◌, ◌==◌, string_eq, arith, eq_iff,
  Bool-cases, inl, inr,
}
use kinbridge_server.Time.{elapsed_secs}
use kinbridge_server.Server.State.{PunchReqEntry}
use kinbridge_server.Server.Punch.Log.{is_dup, record_punch}

-- Every later entry is older, from a time on.
abbrev pub Falling : ℕ → List PunchReqEntry → Type 0
Falling bound [] = Unit
Falling bound (e ∷ es) = (e.tm ≤ bound) × Falling e.tm es

-- Of the first `k` entries, those for the same pair are at least 60 seconds older than `now`.
abbrev pub FarFrom : ℕ → ℕ → String → String → List PunchReqEntry → Type 0
FarFrom zero now from_ip to_id es = Unit
FarFrom (suc k) now from_ip to_id [] = Unit
FarFrom (suc k) now from_ip to_id (e ∷ es) =
    (e.from_ip ≡ from_ip → e.to_id ≡ to_id → 60 ≤ elapsed_secs now e.tm)
    × FarFrom k now from_ip to_id es

abbrev pub IsSpaced : List PunchReqEntry → Type 0
IsSpaced [] = Unit
IsSpaced (e ∷ es) = FarFrom 30 e.tm e.from_ip e.to_id es × IsSpaced es

-- Once one entry is old enough, all behind it are.
old-FarFrom :
    (k now bound : ℕ) (from_ip to_id : String) (es : List PunchReqEntry)
    → 60 ≤ elapsed_secs now bound
    → Falling bound es
    → FarFrom k now from_ip to_id es
unfolding elapsed_secs
old-FarFrom zero now bound from_ip to_id es h f = tt
old-FarFrom (suc k) now bound from_ip to_id [] h f = tt
old-FarFrom (suc k) now bound from_ip to_id (e ∷ es) h f =
    let older : 60 ≤ elapsed_secs now e.tm = omega arith in
    ((λ _ _. older), old-FarFrom k now e.tm from_ip to_id es older f.1)

fresh-FarFrom :
    (k now bound : ℕ) (from_ip to_id : String) (es : List PunchReqEntry)
    → Falling bound es
    → is_dup k now from_ip to_id es ≡ false
    → FarFrom k now from_ip to_id es
unfolding is_dup
fresh-FarFrom zero now bound from_ip to_id es f h = tt
fresh-FarFrom (suc k) now bound from_ip to_id [] f h = tt
fresh-FarFrom (suc k) now bound from_ip to_id (e ∷ es) f h =
    elim (Bool-cases (e.from_ip == from_ip && e.to_id == to_id)) [
      | inl hit ↦
          let old : 60 ≤ elapsed_secs now e.tm = ground arith in
          ((λ _ _. old), old-FarFrom k now e.tm from_ip to_id es old f.1)
      | inr miss ↦ (
        (λ p q. ground (arith, eq_iff e.from_ip from_ip, eq_iff e.to_id to_id)),
        fresh-FarFrom k now e.tm from_ip to_id es f.1 (ground arith),
      )
    ]

-- Recording a request at a time no earlier than those in the record keeps the record spaced and in
-- the order of its times.
pub record_punch-IsSpaced :
    (now : ℕ) (from_ip to_ip to_id : String) (es : List PunchReqEntry)
    → Falling now es
    → IsSpaced es
    → IsSpaced (record_punch now from_ip to_ip to_id es)
      × Falling now (record_punch now from_ip to_ip to_id es)
unfolding record_punch
record_punch-IsSpaced now from_ip to_ip to_id es f h =
    elim (Bool-cases (is_dup 30 now from_ip to_id es)) [
      | inl e ↦ rw (e, record_punch) (h, f)
      | inr e ↦
          rw (e, record_punch)
            ((fresh-FarFrom 30 now now from_ip to_id es f e, h), (omega arith, f))
    ]
