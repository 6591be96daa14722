-- ===== src/Dict/Laws.antt =====
-- The laws of maps, in the form of a conditional, so that they rewrite without side conditions.
use kinbridge_server.Prelude.{
  ◌+◌, ◌≤◌, ◌≡◌, refl, false, List, [], ◌∷◌, none, some, arith, HasEq, ◌==◌, ap, ◌∙◌, beq_refl,
  length, if◌then◌else◌,
}
use kinbridge_server.Dict.{Dict, lookup, contains_key, insert, remove, insert_new}

module _ {ℓ κ} {K : Type ℓ} {V : Type κ} ⦃e : HasEq K⦄ where
  pub lookup-insert :
      (k j : K) (v : V) (d : Dict K V)
      → lookup j (insert k v d) ≡ (if k == j then some v else lookup j d)
  unfolding lookup insert
  lookup-insert k j v [] = refl
  lookup-insert k j v ((i, w) ∷ d) =
      ground (arith, e.equal_iff k j, e.equal_iff i k, e.equal_iff i j, lookup-insert k j v d)

  pub lookup-remove :
      (k j : K) (d : Dict K V) → lookup j (remove k d) ≡ (if k == j then none else lookup j d)
  unfolding lookup remove
  lookup-remove k j [] = ground arith
  lookup-remove k j ((i, w) ∷ d) =
      ground (arith, e.equal_iff k j, e.equal_iff i k, e.equal_iff i j, lookup-remove k j d)

  pub lookup-insert_self : (k : K) (v : V) (d : Dict K V) → lookup k (insert k v d) ≡ some v
  lookup-insert_self k v d =
      lookup-insert k k v d ∙ ap (λ b. if b then some v else lookup k d) (beq_refl k)

  pub lookup-remove_self : (k : K) (d : Dict K V) → lookup k (remove k d) ≡ none
  lookup-remove_self k d =
      lookup-remove k k d ∙ ap (λ b. if b then none else lookup k d) (beq_refl k)

  pub contains_key-none : (k : K) (d : Dict K V) → contains_key k d ≡ false → lookup k d ≡ none
  unfolding lookup contains_key
  contains_key-none k [] h = refl
  contains_key-none k ((j, w) ∷ d) h = ground (arith, contains_key-none k d)

module _ {ℓ} {A : Type ℓ} ⦃e : HasEq A⦄ where
  pub length-insert_new : (a : A) (xs : List A) → length (insert_new a xs) ≤ length xs + 1
  unfolding insert_new
  length-insert_new a xs = ground arith

pub ruleset dict_laws = (lookup-insert, lookup-remove)
