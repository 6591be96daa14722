-- ===== src/Blocker/Burst.antt =====
-- The limit on attempts: the decision as one formula, and what a burst of attempts can reach.
use kinbridge_server.Prelude.{
  ℕ, ◌+◌, ◌≤◌, ◌<◌, ◌≡◌, ◌≢◌, refl, false, ◌&&◌, ◌||◌, String, List, [], ◌∷◌, none, some,
  Option-cases, inl, inr, arith, ltb, leb, length, All, if◌then◌else◌, string_eq, eq_iff, ap, ◌∙◌,
  ◌⊎◌,
}
use kinbridge_server.Dict.{lookup, contains}
use kinbridge_server.Dict.Laws.{lookup-insert}
use kinbridge_server.Time.{elapsed_secs}
use kinbridge_server.Blocker.{
  IpBlock, IpBlockMap, check_ids, check_entry, check_ip_blocker, fresh_entry, ip_block_dur,
  day_seconds,
}

-- An attempt from an address with an entry is allowed exactly if its window of attempts has run out
-- or holds at most 30 of them, and the day of its ids has run out, or they are at most 300, or this
-- id is one of them.
pub check_ip_blocker-allowed :
    (now : ℕ) (ip id : String) (lock : IpBlockMap) (b : IpBlock)
    → lookup ip lock ≡ some b
    → (check_ip_blocker now ip id lock).0 ≡ (
        (ltb ip_block_dur (elapsed_secs now b.count_tm) || leb b.count 30)
        && (ltb day_seconds (elapsed_secs now b.ids_tm)
            || (leb (length b.ids) 300 || contains id b.ids)))
unfolding check_ip_blocker
check_ip_blocker-allowed now ip id lock b e =
    rw (e, check_ip_blocker) (unfold check_entry check_ids in ground arith)

-- What an attempt does to the entry of its own address.
pub lookup-check_self :
    (now : ℕ) (ip id : String) (lock : IpBlockMap) (b : IpBlock)
    → lookup ip lock ≡ some b
    → (lookup ip (check_ip_blocker now ip id lock).1 ≡ some (check_entry now id b).1)
      × ((check_ip_blocker now ip id lock).0 ≡ (check_entry now id b).0)
unfolding check_ip_blocker
lookup-check_self now ip id lock b e =
    rw (e, check_ip_blocker)
      (ground (arith, eq_iff ip ip, lookup-insert ip ip (check_entry now id b).1 lock), refl)

lookup-check_new :
    (now : ℕ) (ip id : String) (lock : IpBlockMap)
    → lookup ip lock ≡ none
    → lookup ip (check_ip_blocker now ip id lock).1 ≡ some (fresh_entry now)
unfolding check_ip_blocker
lookup-check_new now ip id lock e =
    rw (e, check_ip_blocker)
      (ground (arith, eq_iff ip ip, lookup-insert ip ip (fresh_entry now) lock))

-- An attempt of one address leaves the entries of all other addresses as they are.
pub lookup-check_ne :
    (now : ℕ) (ip jp id : String) (lock : IpBlockMap)
    → ip ≢ jp
    → lookup jp (check_ip_blocker now ip id lock).1 ≡ lookup jp lock
unfolding check_ip_blocker
lookup-check_ne now ip jp id lock ne = elim (Option-cases (lookup ip lock)) [
  | inl e ↦
      rw (e, check_ip_blocker)
        (ground (arith, eq_iff ip jp, lookup-insert ip jp (fresh_entry now) lock))
  | inr (b, e) ↦
      rw (e, check_ip_blocker)
        (ground (arith, eq_iff ip jp, lookup-insert ip jp (check_entry now id b).1 lock))
]

-- How many of a sequence of attempts from one address are allowed; each has its time and its id.
abbrev pub allowed_count : String → List (ℕ × String) → IpBlockMap → ℕ
allowed_count ip [] lock = 0
allowed_count ip ((now, id) ∷ rest) lock =
    let r = check_ip_blocker now ip id lock in (if r.0 then 1 else 0) + allowed_count ip rest r.1

-- All within one window of 61 seconds.
abbrev pub Within : ℕ → List (ℕ × String) → Type 0
Within start = All (λ (a : ℕ × String). (start ≤ a.0) × (a.0 < start + 61_000_000_000))

check_entry_step :
    (start now : ℕ) (id : String) (b : IpBlock)
    → start ≤ b.count_tm
    → (start ≤ now) × (now < start + 61_000_000_000)
    → b.count ≤ 31
    → (start ≤ (check_entry now id b).1.count_tm)
      × ((if (check_entry now id b).0 then 1 else 0) + b.count ≤ (check_entry now id b).1.count)
      × ((check_entry now id b).1.count ≤ 31)
unfolding check_entry check_ids
check_entry_step start now id b h t small = ground arith

burst_limit_window :
    (start : ℕ) (ip : String) (attempts : List (ℕ × String)) (lock : IpBlockMap) (b : IpBlock)
    → lookup ip lock ≡ some b
    → start ≤ b.count_tm
    → b.count ≤ 31
    → Within start attempts
    → allowed_count ip attempts lock + b.count ≤ 31
burst_limit_window start ip [] lock b e h small w = omega arith
burst_limit_window start ip ((now, id) ∷ rest) lock b e h small w =
    let s = check_entry_step start now id b h w.0 small in
    let t = lookup-check_self now ip id lock b e in
    rw t.1 (
      omega (
        arith,
        burst_limit_window start ip rest (check_ip_blocker now ip id lock).1
            (check_entry now id b).1 t.0 s.0 s.2 w.1,
      ))

-- The first attempt is refused and changes nothing, or is counted at its own time.
check_entry_first :
    (now : ℕ) (id : String) (b : IpBlock)
    → b.count ≤ 31
    → (((check_entry now id b).0 ≡ false) × ((check_entry now id b).1 ≡ b))
      ⊎ (((check_entry now id b).1.count_tm ≡ now)
          × (1 ≤ (check_entry now id b).1.count)
          × ((check_entry now id b).1.count ≤ 31))
unfolding check_entry check_ids
check_entry_first now id b small = ground arith

-- An address with an entry that counts at most 31 attempts gets at most 31 of its attempts within a
-- window of 61 seconds allowed, whatever ids they name.
pub burst_limit :
    (start : ℕ) (ip : String) (attempts : List (ℕ × String)) (lock : IpBlockMap) (b : IpBlock)
    → lookup ip lock ≡ some b
    → b.count ≤ 31
    → Within start attempts
    → allowed_count ip attempts lock ≤ 31
burst_limit start ip [] lock b e small w = omega arith
burst_limit start ip ((now, id) ∷ rest) lock b e small w =
    let t = lookup-check_self now ip id lock b e in
    let lock' : IpBlockMap = (check_ip_blocker now ip id lock).1 in
    rw t.1 (elim (check_entry_first now id b small) [
      | inl (refused, same) ↦
          rw refused
            (omega (arith, burst_limit start ip rest lock' b (t.0 ∙ ap some same) small w.1))
      | inr (tm, lo, hi) ↦
          let after : IpBlock = (check_entry now id b).1 in
          ground (arith, burst_limit_window start ip rest lock' after t.0 (omega arith) hi w.1)
    ])

-- An address that is not in the table gets at most 32 of its attempts within a window of 61 seconds
-- allowed.
pub burst_limit_new :
    (start : ℕ) (ip : String) (attempts : List (ℕ × String)) (lock : IpBlockMap)
    → lookup ip lock ≡ none
    → Within start attempts
    → allowed_count ip attempts lock ≤ 32
unfolding fresh_entry
burst_limit_new start ip [] lock e w = omega arith
burst_limit_new start ip ((now, id) ∷ rest) lock e w = ground (
  arith,
  burst_limit start ip rest (check_ip_blocker now ip id lock).1 (fresh_entry now)
      (lookup-check_new now ip id lock e) (omega arith) w.1,
)
