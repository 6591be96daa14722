-- ===== src/Dict/Members.antt =====
-- A predicate on the entries of a map or of a list, and the operations that keep it.
use kinbridge_server.Prelude.{
  ℕ, zero, suc, ◌≡◌, List, [], ◌∷◌, some, HasEq, ◌==◌, All, Bool-cases, inl, inr, get_elem?,
  remove_at,
}
use mathlib.Core.Option.{some-injective}
use kinbridge_server.Dict.{Dict, lookup, insert, remove}

module _ {ℓ κ μ} {K : Type ℓ} {V : Type κ} ⦃e : HasEq K⦄ (P : K × V → Type μ) where
  pub All-remove : (k : K) (d : Dict K V) → All P d → All P (remove k d)
  unfolding remove
  All-remove k [] h = tt
  All-remove k ((j, v) ∷ d) h = elim (Bool-cases (j == k)) [
    | inl t ↦ rw t (All-remove k d h.1)
    | inr t ↦ rw t (h.0, All-remove k d h.1)
  ]

  pub All-insert : (k : K) (v : V) (d : Dict K V) → P (k, v) → All P d → All P (insert k v d)
  unfolding insert
  All-insert k v [] p h = (p, tt)
  All-insert k v ((j, w) ∷ d) p h = elim (Bool-cases (j == k)) [
    | inl t ↦ rw t (p, h.1)
    | inr t ↦ rw t (h.0, All-insert k v d p h.1)
  ]

  pub All-lookup : (k : K) (d : Dict K V) {v : V} → All P d → lookup k d ≡ some v → P (k, v)
  unfolding lookup
  All-lookup k [] h q = cc
  All-lookup k ((j, w) ∷ d) {v} h q = elim (Bool-cases (j == k)) [
    | inl t ↦
        let same_key : j ≡ k = (e.equal_iff j k).0 t in
        let same_value : w ≡ v = some-injective w v (rw t at q) in rw (← same_key, ← same_value) h.0
    | inr t ↦ All-lookup k d h.1 (rw t at q)
  ]

module _ {ℓ μ} {A : Type ℓ} where
  pub All-remove_at : (P : A → Type μ) (i : ℕ) (xs : List A) → All P xs → All P (remove_at i xs)
  All-remove_at P i [] h = tt
  All-remove_at P zero (x ∷ xs) h = h.1
  All-remove_at P (suc i) (x ∷ xs) h = (h.0, All-remove_at P i xs h.1)

  pub All-get_elem? :
      (P : A → Type μ) (i : ℕ) (xs : List A) {a : A} → All P xs → get_elem? xs i ≡ some a → P a
  All-get_elem? P i [] h q = cc
  All-get_elem? P zero (x ∷ xs) {a} h q = rw (← some-injective x a q) h.0
  All-get_elem? P (suc i) (x ∷ xs) h q = All-get_elem? P i xs h.1 q

  pub All-map : (P Q : A → Type μ) (xs : List A) → ((a : A) → P a → Q a) → All P xs → All Q xs
  All-map P Q [] f h = tt
  All-map P Q (x ∷ xs) f h = (f x h.0, All-map P Q xs f h.1)
