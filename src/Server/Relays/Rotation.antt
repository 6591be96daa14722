-- ===== src/Server/Relays/Rotation.antt =====
-- Round robin over the relay servers.
use kinbridge_server.Prelude.{
  ℕ, zero, suc, ◌+◌, ◌-◌, ◌%◌, ◌^◌, ◌≤◌, ◌<◌, ◌≡◌, ◌≢◌, refl, ap, sym, ◌∙◌, String, List, [], ◌∷◌,
  ◌++◌, length, get_or, take, drop, arith,
}
use mathlib.Core.Path.{ap₂}
use mathlib.Core.List.{Mem, mem-cons_self, mem-cons_of_mem}
use native.Mathlib.Nat.{mod-add-mod, mod_self}
use kinbridge_server.Server.Relays.{get_relay_server}

get_or-Mem : (xs : List String) (i : ℕ) → i < length xs → Mem (get_or xs i "") xs
get_or-Mem [] i h = absurd (omega arith)
get_or-Mem (x ∷ xs) zero h = mem-cons_self
get_or-Mem (x ∷ xs) (suc i) h = mem-cons_of_mem x (get_or-Mem xs i (omega arith))

-- With any servers at all, the chosen one is among them, whatever the counter: no index is out of
-- range.
pub get_relay_server-Mem :
    (servers : List String) (rotation : ℕ)
    → servers ≢ []
    → Mem (get_relay_server servers rotation).0 servers
unfolding get_relay_server
get_relay_server-Mem [] rotation h = absurd (h refl)
get_relay_server-Mem (s ∷ []) rotation h = mem-cons_self
get_relay_server-Mem (s ∷ t ∷ rest) rotation h =
    get_or-Mem (s ∷ t ∷ rest) (rotation % length (s ∷ t ∷ rest)) (omega arith)

-- The servers that n calls in a row choose.
unfoldable pub choices : ℕ → List String → ℕ → List String
choices zero servers rotation = []
choices (suc n) servers rotation =
    let r = get_relay_server servers rotation in r.0 ∷ choices n servers r.1

mod-suc : (r n : ℕ) → r % n + 1 < n → (r + 1) % n ≡ suc (r % n)
mod-suc r n h = grind arith

take-drop :
    (xs : List String) (i k : ℕ)
    → i < length xs
    → take (suc k) (drop i xs) ≡ get_or xs i "" ∷ take k (drop (suc i) xs)
take-drop [] i k h = absurd (omega arith)
take-drop (x ∷ xs) zero k h = refl
take-drop (x ∷ xs) (suc i) k h = take-drop xs i k (omega arith)

take-all : (xs : List String) (k : ℕ) → length xs ≤ k → take k xs ≡ xs
take-all [] zero h = refl
take-all [] (suc k) h = refl
take-all (x ∷ xs) zero h = absurd (omega arith)
take-all (x ∷ xs) (suc k) h = ap (◌∷◌ x) (take-all xs k (omega arith))

length-drop : (xs : List String) (k : ℕ) → length (drop k xs) ≡ length xs - k
length-drop xs zero = omega arith
length-drop [] (suc k) = omega arith
length-drop (x ∷ xs) (suc k) = omega (arith, length-drop xs k)

module _ (s t : String) (rest : List String) where
  abbrev pub servers : List String
  servers = s ∷ t ∷ rest

  -- Up to the end of the list, the calls choose its elements in their order.
  choices_run :
      (k r : ℕ)
      → r % length servers + k ≤ length servers
      → r + k < 2 ^ 64
      → choices k servers r ≡ take k (drop (r % length servers) servers)
  unfolding choices get_relay_server
  choices_run zero r h w = refl
  choices_run (suc zero) r h w = sym (take-drop servers (r % length servers) 0 (omega arith))
  choices_run (suc (suc k)) r h w =
      let n : ℕ = length servers in
      let first : String = get_or servers (r % n) "" in
      let counted : (r + 1) % 2 ^ 64 ≡ r + 1 = omega arith in
      let moved : (r + 1) % n ≡ suc (r % n) = mod-suc r n (omega arith) in
      ap (λ q. first ∷ choices (suc k) servers q) counted
      ∙ ap (◌∷◌ first) (choices_run (suc k) (r + 1) (rw moved (omega arith)) (omega arith))
      ∙ ap (λ q. first ∷ take (suc k) (drop q servers)) moved
      ∙ sym (take-drop servers (r % n) (suc k) (omega arith))

  choices_split :
      (a b r : ℕ)
      → r + a + b < 2 ^ 64
      → choices (a + b) servers r ≡ choices a servers r ++ choices b servers (r + a)
  unfolding choices get_relay_server
  choices_split zero b r w = ap₂ (λ x y. choices x servers y) (omega arith) (omega arith)
  choices_split (suc a) b r w =
      let first : String = get_or servers (r % length servers) "" in
      let counted : (r + 1) % 2 ^ 64 ≡ r + 1 = omega arith in
      let sum : suc a + b ≡ suc (a + b) = omega arith in
      let shifted : r + suc a ≡ r + 1 + a = omega arith in
      rw (sum, counted, shifted) (ap (◌∷◌ first) (choices_split a b (r + 1) (omega arith)))

  -- Of two or more servers, as many calls in a row as there are servers choose each server once, in
  -- the order of the list from the counter's place on, as long as the counter does not wrap around.
  pub choices_rotate :
      (r : ℕ)
      → r + length servers < 2 ^ 64
      → choices (length servers) servers r
        ≡ drop (r % length servers) servers ++ take (r % length servers) servers
  choices_rotate r w =
      let n : ℕ = length servers in
      let i : ℕ = r % n in
      let small : i < n = omega arith in
      let whole : n ≡ n - i + i = omega arith in
      let back : (r + (n - i)) % n ≡ 0 =
        sym (mod-add-mod r n (n - i)) ∙ ap (λ (x : ℕ). x % n) (omega arith) ∙ mod_self n in
      let run : choices (n - i) servers r ≡ drop i servers =
        choices_run (n - i) r (omega arith) (omega arith)
        ∙ take-all (drop i servers) (n - i) (omega (arith, length-drop servers i)) in
      let wrapped : choices i servers (r + (n - i)) ≡ take i servers =
        choices_run i (r + (n - i)) (rw back (omega arith)) (omega arith)
        ∙ ap (λ q. take i (drop q servers)) back in
      ap (λ k. choices k servers r) whole
      ∙ choices_split (n - i) i r (omega arith)
      ∙ ap₂ (λ xs ys. xs ++ ys) run wrapped
