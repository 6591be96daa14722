-- ===== src/Dict/View.antt =====
-- A map without the order of its entries: the quotient of Dict by what `lookup` shows.
use kinbridge_server.Prelude.{◌≡◌, ap, sym, ◌∙◌, HasEq, ◌==◌, some, if◌then◌else◌}
use kinbridge_server.Dict.{Dict, lookup, insert}
use kinbridge_server.Dict.Laws.{lookup-insert}

module _ {ℓ κ} {K : Type ℓ} {V : Type κ} ⦃e : HasEq K⦄ where
  abbrev pub SameView : Dict K V → Dict K V → Type (ℓ ⊔ κ)
  SameView c d = (k : K) → lookup k c ≡ lookup k d

  pub insert-SameView :
      (k : K) (v : V) (c d : Dict K V) → SameView c d → SameView (insert k v c) (insert k v d)
  insert-SameView k v c d h j =
      lookup-insert k j v c
      ∙ ap (λ o. if k == j then some v else o) (h j)
      ∙ sym (lookup-insert k j v d)
