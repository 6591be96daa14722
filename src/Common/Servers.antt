-- ===== src/Common/Servers.antt =====
-- What the lists of servers hold.
use kinbridge_server.Prelude.{◌≡◌, true, String, List, [], ◌∷◌, All, Bool-cases, inl, inr}
use kinbridge_server.Env.{Env}
use kinbridge_server.Common.{is_server, keep_servers}

module _ (env : Env) where
  -- Every server that is kept has a name that resolves to an address.
  pub keep_servers-All :
      (xs : List String) → All (λ x. is_server env x ≡ true) (keep_servers env xs)
  unfolding keep_servers
  keep_servers-All [] = tt
  keep_servers-All (x ∷ xs) = elim (Bool-cases (is_server env x)) [
    | inl e ↦ rw e (e, keep_servers-All xs)
    | inr e ↦ rw e (keep_servers-All xs)
  ]
