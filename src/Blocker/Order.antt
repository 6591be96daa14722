-- ===== src/Blocker/Order.antt =====
-- The table of attempts without the order of its entries, and without the order in which the tasks
-- of different addresses come to it.
use mathlib.Core.Quot
use mathlib.Core.Quot.{Quot, Quot-set}
use kinbridge_server.Prelude.{
  ℕ, ◌≡◌, ◌≢◌, refl, sym, ap, ◌∙◌, Bool, true, false, String, Option, none, some, string_eq, ◌==◌,
  eq_iff, arith, inl, inr, Bool-cases, if◌then◌else◌,
}
use kinbridge_server.Dict.{lookup, insert}
use kinbridge_server.Dict.Laws.{lookup-insert}
use kinbridge_server.Dict.View.{SameView}
use kinbridge_server.Blocker.{
  IpBlock, IpBlockMap, check_entry, fresh_entry, check_found, check_ip_blocker,
}

-- The abstract table.
abbrev pub IpTable : Type 0
IpTable = Quot (SameView {K = String} {V = IpBlock})

-- The answer, and the entry that replaces the address's own.
abbrev verdict : ℕ → String → Option IpBlock → Bool × IpBlock
verdict now id none = (true, fresh_entry now)
verdict now id (some b) = check_entry now id b

check_found-verdict :
    (now : ℕ) (ip id : String) (lock : IpBlockMap) (o : Option IpBlock)
    → check_found now ip id lock o ≡ ((verdict now id o).0, insert ip (verdict now id o).1 lock)
unfolding check_found
check_found-verdict now ip id lock none = refl
check_found-verdict now ip id lock (some b) = refl

module _ (now : ℕ) (ip id : String) where
  check-verdict :
      (lock : IpBlockMap)
      → check_ip_blocker now ip id lock
        ≡ ((verdict now id (lookup ip lock)).0, insert ip (verdict now id (lookup ip lock)).1 lock)
  unfolding check_ip_blocker
  check-verdict lock = check_found-verdict now ip id lock (lookup ip lock)

  answer-check :
      (lock : IpBlockMap)
      → (check_ip_blocker now ip id lock).0 ≡ (verdict now id (lookup ip lock)).0
  answer-check lock = ap (λ r. r.0) (check-verdict lock)

  lookup-check :
      (j : String) (lock : IpBlockMap)
      → lookup j (check_ip_blocker now ip id lock).1
        ≡ (if ip == j then some (verdict now id (lookup ip lock)).1 else lookup j lock)
  lookup-check j lock =
      ap (λ r. lookup j r.1) (check-verdict lock)
      ∙ lookup-insert ip j (verdict now id (lookup ip lock)).1 lock

  check-SameView :
      (c d : IpBlockMap)
      → SameView c d
      → ((check_ip_blocker now ip id c).0 ≡ (check_ip_blocker now ip id d).0)
        × SameView (check_ip_blocker now ip id c).1 (check_ip_blocker now ip id d).1
  check-SameView c d h = (
    answer-check c ∙ ap (λ o. (verdict now id o).0) (h ip) ∙ sym (answer-check d),
    λ j.
        lookup-check j c
        ∙ ap (λ o. if ip == j then some (verdict now id o).1 else lookup j c) (h ip)
        ∙ ap (λ o. if ip == j then some (verdict now id (lookup ip d)).1 else o) (h j)
        ∙ sym (lookup-check j d),
  )

  -- An attempt at the abstract table: the answer, and the table after it.
  pub answer : IpTable → Bool
  answer =
      Quot.lift (hlevel) (λ c. (check_ip_blocker now ip id c).0) (λ c d h. (check-SameView c d h).0)

  pub attempt : IpTable → IpTable
  attempt =
      Quot.lift Quot-set (λ c. Quot.mk (check_ip_blocker now ip id c).1)
        (λ c d h. Quot.sound (check-SameView c d h).1)

-- Another address finds its own entry.
pub other_entry :
    (now : ℕ) (ip jp id : String) (c : IpBlockMap)
    → ip ≢ jp
    → lookup jp (check_ip_blocker now ip id c).1 ≡ lookup jp c
other_entry now ip jp id c ne =
    let apart : (ip == jp) ≡ false = ground (arith, eq_iff ip jp) in
    lookup-check now ip id jp c ∙ rw apart refl

two_entries :
    (now later : ℕ) (ip jp id jd j : String) (c : IpBlockMap)
    → ip ≢ jp
    → lookup j (check_ip_blocker later jp jd (check_ip_blocker now ip id c).1).1 ≡ (
        if jp == j
        then some (verdict later jd (lookup jp c)).1
        else if ip == j
        then some (verdict now id (lookup ip c)).1
        else lookup j c)
two_entries now later ip jp id jd j c ne =
    lookup-check later jp jd j (check_ip_blocker now ip id c).1
    ∙ ap
        (λ o.
          if jp == j
          then some (verdict later jd o).1
          else lookup j (check_ip_blocker now ip id c).1)
        (other_entry now ip jp id c ne)
    ∙ ap (λ o. if jp == j then some (verdict later jd (lookup jp c)).1 else o)
        (lookup-check now ip id j c)

module _ (now later : ℕ) (ip jp id jd : String) (ne : ip ≢ jp) where
  swap-SameView :
      (c : IpBlockMap)
      → SameView
          (check_ip_blocker later jp jd (check_ip_blocker now ip id c).1).1
          (check_ip_blocker now ip id (check_ip_blocker later jp jd c).1).1
  swap-SameView c j =
      two_entries now later ip jp id jd j c ne
      ∙ elim (Bool-cases (jp == j)) [
        | inl e ↦
            let apart : (ip == j) ≡ false = ground (arith, eq_iff ip j, eq_iff jp j) in
            rw (e, apart) refl
        | inr e ↦ rw e refl
      ]
      ∙ sym (two_entries later now jp ip jd id j c (λ e. ne (sym e)))

  -- The attempts of two addresses commute, as equations of the abstract table, which forgets the
  -- order of the entries: in either order each gets the same answer, and the table is the same.
  pub attempts_commute :
      (t : IpTable)
      → (answer later jp jd (attempt now ip id t) ≡ answer later jp jd t)
        × (answer now ip id (attempt later jp jd t) ≡ answer now ip id t)
        × (attempt later jp jd (attempt now ip id t) ≡ attempt now ip id (attempt later jp jd t))
  unfolding answer attempt
  attempts_commute =
      Quot.ind (λ t. hlevel Quot-set)
        (λ c. (
          answer-check later jp jd (check_ip_blocker now ip id c).1
              ∙ ap (λ o. (verdict later jd o).0) (other_entry now ip jp id c ne)
              ∙ sym (answer-check later jp jd c),
          answer-check now ip id (check_ip_blocker later jp jd c).1
              ∙ ap (λ o. (verdict now id o).0) (other_entry later jp ip jd c (λ e. ne (sym e)))
              ∙ sym (answer-check now ip id c),
          Quot.sound (swap-SameView c),
        ))
