-- ===== src/Dict.antt =====
-- The HashMap and HashSet of the standard library, as far as the servers use them. A map is an
-- association list with one entry for each key; the order of the entries stands for the unspecified
-- order of iteration.
pub mod Laws
pub mod Members
pub mod View
use kinbridge_server.Prelude.{
  ℕ, Bool, true, false, List, [], ◌∷◌, Option, none, some, HasEq, ◌==◌, ◌||◌, length, if◌then◌else◌,
}

abbrev pub Dict {ℓ κ} : Type ℓ → Type κ → Type (ℓ ⊔ κ)
Dict K V = List (K × V)

module _ {ℓ κ} {K : Type ℓ} {V : Type κ} ⦃e : HasEq K⦄ where
  -- `get` and `get_mut`.
  unfoldable pub lookup : K → Dict K V → Option V
  lookup k [] = none
  lookup k ((j, v) ∷ d) = if j == k then some v else lookup k d

  unfoldable pub contains_key : K → Dict K V → Bool
  contains_key k [] = false
  contains_key k ((j, v) ∷ d) = j == k || contains_key k d

  -- A write through `get_mut` is an `insert` too.
  unfoldable pub insert : K → V → Dict K V → Dict K V
  insert k v [] = (k, v) ∷ []
  insert k v ((j, w) ∷ d) = if j == k then (k, v) ∷ d else (j, w) ∷ insert k v d

  unfoldable pub remove : K → Dict K V → Dict K V
  remove k [] = []
  remove k ((j, v) ∷ d) = let rest = remove k d in if j == k then rest else (j, v) ∷ rest

  unfoldable pub retain : (V → Bool) → Dict K V → Dict K V
  retain keep [] = []
  retain keep ((j, v) ∷ d) = let rest = retain keep d in if keep v then (j, v) ∷ rest else rest

module _ {ℓ} {A : Type ℓ} ⦃e : HasEq A⦄ where
  -- A HashSet is a list without repetitions.
  unfoldable pub contains : A → List A → Bool
  contains a [] = false
  contains a (x ∷ xs) = x == a || contains a xs

  unfoldable pub insert_new : A → List A → List A
  unfolding contains
  insert_new a xs = if contains a xs then xs else a ∷ xs

  unfoldable pub remove_elem : A → List A → List A
  remove_elem a [] = []
  remove_elem a (x ∷ xs) = let rest = remove_elem a xs in if x == a then rest else x ∷ rest
