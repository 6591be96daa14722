-- ===== src/Blocker/Bounds.antt =====
-- The counters of the table stay small, so none can overflow.
use kinbridge_server.Prelude.{
  ℕ, ◌+◌, ◌%◌, ◌^◌, ◌≤◌, ◌≡◌, refl, String, [], ◌∷◌, Option, none, some, arith, length, All,
  string_eq,
}
use kinbridge_server.Dict.{lookup, insert}
use kinbridge_server.Dict.Laws.{length-insert_new}
use kinbridge_server.Blocker.{
  IpBlock, IpBlockMap, check_ids, check_entry, check_found, check_ip_blocker, fresh_entry,
}

abbrev pub IsSmall : IpBlock → Type 0
IsSmall b = (b.count ≤ 31) × (length b.ids ≤ 301)

-- A text and its entry.
abbrev pub HoldsSmall : IpBlockMap → Type 0
HoldsSmall = All (λ (e : String × IpBlock). IsSmall e.1)

check_ids-IsSmall :
    (now : ℕ) (id : String) (b : IpBlock) → IsSmall b → IsSmall (check_ids now id b).1
unfolding check_ids
check_ids-IsSmall now id b h = ground (arith, length-insert_new id b.ids)

check_entry-IsSmall :
    (now : ℕ) (id : String) (b : IpBlock) → IsSmall b → IsSmall (check_entry now id b).1
unfolding check_entry
check_entry-IsSmall now id b h = ground (
  arith,
  check_ids-IsSmall now id (record b { count = 1; count_tm = now }),
  check_ids-IsSmall now id (record b { count = (b.count + 1) % 2 ^ 32; count_tm = now }),
)

insert-HoldsSmall :
    (ip : String) (b : IpBlock) (lock : IpBlockMap)
    → IsSmall b
    → HoldsSmall lock
    → HoldsSmall (insert ip b lock)
unfolding insert
insert-HoldsSmall ip b [] hb h = (hb, tt)
insert-HoldsSmall ip b ((j, w) ∷ d) hb h = ground (arith, insert-HoldsSmall ip b d hb h.1)

lookup-IsSmall :
    (ip : String) (lock : IpBlockMap) {b : IpBlock}
    → HoldsSmall lock
    → lookup ip lock ≡ some b
    → IsSmall b
unfolding lookup
lookup-IsSmall ip [] h e = cc
lookup-IsSmall ip ((j, w) ∷ d) {b} h e = ground (arith, lookup-IsSmall ip d {b = b} h.1)

check_found-HoldsSmall :
    (now : ℕ) (ip id : String) (lock : IpBlockMap) (o : Option IpBlock)
    → lookup ip lock ≡ o
    → HoldsSmall lock
    → HoldsSmall (check_found now ip id lock o).1
unfolding check_found
check_found-HoldsSmall now ip id lock none e h =
    insert-HoldsSmall ip (fresh_entry now) lock (unfold fresh_entry in omega arith) h
check_found-HoldsSmall now ip id lock (some b) e h =
    insert-HoldsSmall ip _ lock (check_entry-IsSmall now id b (lookup-IsSmall ip lock h e)) h

-- Every check keeps each address's attempt counter at 31 or less and its set of ids at 301 ids or
-- less, so the `u32` counter never overflows.
pub check_ip_blocker-HoldsSmall :
    (now : ℕ) (ip id : String) (lock : IpBlockMap)
    → HoldsSmall lock
    → HoldsSmall (check_ip_blocker now ip id lock).1
unfolding check_ip_blocker
check_ip_blocker-HoldsSmall now ip id lock h =
    check_found-HoldsSmall now ip id lock (lookup ip lock) refl h
