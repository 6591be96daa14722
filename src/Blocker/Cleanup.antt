-- ===== src/Blocker/Cleanup.antt =====
-- The clean-up of the table of attempts.
use kinbridge_server.Prelude.{
  ℕ, ◌≤◌, ◌≡◌, refl, sym, ◌≢◌, All, List, ap, ◌∙◌, Bool, true, false, ◌||◌, String, [], ◌∷◌, Option,
  none, some, arith, string_eq, ◌==◌, eq_iff, inl, inr, Bool-cases, if◌then◌else◌, leb,
}
use kinbridge_server.Dict.{Dict, lookup, retain}
use kinbridge_server.Time.{elapsed_secs, elapsed, as_secs}
use kinbridge_server.Blocker.{
  IpBlock, IpBlockMap, check_found, check_ids, check_ip_blocker, check_entry, ip_block_dur,
  day_seconds,
}
use kinbridge_server.Blocker.Order.{other_entry}
use kinbridge_server.Server.Commands.Tables.{clean_blocker}

-- One entry for each key.
abbrev pub IsUnique {ℓ} : {V : Type ℓ} → Dict String V → Type ℓ
IsUnique [] = Unit
IsUnique ((k, v) ∷ d) = (lookup k d ≡ none) × IsUnique d

kept_if {ℓ} : {V : Type ℓ} → (V → Bool) → Option V → Option V
kept_if keep none = none
kept_if keep (some v) = if keep v then some v else none

module _ {ℓ} {V : Type ℓ} (keep : V → Bool) (k : String) where
  lookup-retain :
      (d : Dict String V) → IsUnique d → lookup k (retain keep d) ≡ kept_if keep (lookup k d)
  unfolding lookup retain kept_if
  lookup-retain [] u = refl
  lookup-retain ((j, v) ∷ d) (fresh, u) = elim (Bool-cases (j == k)) [
    | inl e ↦
        let same : j ≡ k = (eq_iff j k).0 e in
        let absent : lookup k d ≡ none = rw⁻¹ same fresh in
        elim (Bool-cases (keep v)) [
          | inl f ↦ rw (f, e, f) refl
          | inr f ↦ rw (f, e, f, lookup-retain d u, absent) refl
        ]
    | inr e ↦ elim (Bool-cases (keep v)) [
      | inl f ↦ rw (f, e) (lookup-retain d u)
      | inr f ↦ rw (f, e) (lookup-retain d u)
    ]
  ]

-- An entry that the clean-up takes out would have allowed the next attempt.
over_allows :
    (now t : ℕ) (id : String) (b : IpBlock)
    → now ≤ t
    → (leb (elapsed_secs now b.count_tm) ip_block_dur
        || leb (elapsed_secs now b.ids_tm) day_seconds)
      ≡ false
    → (check_entry t id b).0 ≡ true
unfolding check_entry check_ids elapsed_secs elapsed as_secs
over_allows now t id b h over = ground (arith, h, over)

found_alike :
    (now t : ℕ) (ip id : String) (lock lock' : IpBlockMap) (o : Option IpBlock)
    → now ≤ t
    → (check_found t ip id lock' (
        kept_if
          (λ (b : IpBlock).
            leb (elapsed_secs now b.count_tm) ip_block_dur
            || leb (elapsed_secs now b.ids_tm) day_seconds)
          o)).0
      ≡ (check_found t ip id lock o).0
unfolding check_found kept_if
found_alike now t ip id lock lock' none h = refl
found_alike now t ip id lock lock' (some b) h =
    elim (Bool-cases (
      leb (elapsed_secs now b.count_tm) ip_block_dur
      || leb (elapsed_secs now b.ids_tm) day_seconds)) [
        | inl e ↦ rw e refl
        | inr e ↦ rw (e, over_allows now t id b h e) refl
      ]

-- Attempts of several addresses: the time, the address and the id of each.
abbrev pub after_attempts : List (ℕ × String × String) → IpBlockMap → IpBlockMap
after_attempts [] lock = lock
after_attempts ((now, ip, id) ∷ others) lock =
    after_attempts others (check_ip_blocker now ip id lock).1

abbrev pub FromOthers : String → List (ℕ × String × String) → Type 0
FromOthers ip = All (λ (a : ℕ × String × String). a.1 ≢ ip)

lookup-after_attempts :
    (ip : String) (others : List (ℕ × String × String)) (lock : IpBlockMap)
    → FromOthers ip others
    → lookup ip (after_attempts others lock) ≡ lookup ip lock
lookup-after_attempts ip [] lock h = refl
lookup-after_attempts ip ((now, jp, id) ∷ others) lock (ne, h) =
    lookup-after_attempts ip others (check_ip_blocker now jp id lock).1 h
    ∙ other_entry now jp ip id lock ne

-- The clean-up that the command ip-blocker begins with does not change the answer to the first attempt
-- of an address after it: whatever other addresses attempt in between, it is allowed if, and only if,
-- it would have been without the clean-up. The table has one entry for each address.
pub clean_blocker-answers :
    (now t : ℕ) (ip id : String) (others : List (ℕ × String × String)) (lock : IpBlockMap)
    → IsUnique lock
    → now ≤ t
    → FromOthers ip others
    → (check_ip_blocker t ip id (after_attempts others (clean_blocker now lock))).0
      ≡ (check_ip_blocker t ip id (after_attempts others lock)).0
unfolding check_ip_blocker clean_blocker
clean_blocker-answers now t ip id others lock u h from_others =
    let cleaned = after_attempts others (clean_blocker now lock) in
    let answer : Option IpBlock → Bool = λ o. (check_found t ip id cleaned o).0 in
    let uncleaned = after_attempts others lock in
    ap answer (lookup-after_attempts ip others (clean_blocker now lock) from_others)
    ∙ ap answer (lookup-retain _ ip lock u)
    ∙ found_alike now t ip id uncleaned cleaned (lookup ip lock) h
    ∙ ap (λ o. (check_found t ip id uncleaned o).0)
        (sym (lookup-after_attempts ip others lock from_others))
