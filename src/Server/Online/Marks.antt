-- ===== src/Server/Online/Marks.antt =====
-- Setting one bit of a list of bytes.
use Prim.Native.Nat.{bit_or}
use kinbridge_server.Prelude.{
  ℕ, zero, suc, ◌-◌, ◌/◌, ◌%◌, ◌^◌, ◌<◌, ◌≡◌, ◌≢◌, refl, ap, sym, ◌∙◌, Bool, true, false, ◌&&◌, [],
  ◌∷◌, length, get_or, All, arith, eqb, ltb, eqb_iff, if◌then◌else◌, Bool-cases, inl, inr,
}
use kinbridge_server.Message.{Bytes}
use kinbridge_server.Server.Online.{or_at, mark}

-- Bit k of a byte, from the right.
abbrev pub bit_of : ℕ → ℕ → Bool
bit_of b k = eqb (b / 2 ^ k % 2) 1

-- Bit i of the states, from left to right.
abbrev pub read_bit : ℕ → Bytes → Bool
read_bit i states = bit_of (get_or states (i / 8) 0) (7 - i % 8)

abbrev pub IsBytes : Bytes → Type 0
IsBytes = All (λ (b : ℕ). b < 256)

-- A test at every number under a bound.
passes_to : (ℕ → Bool) → ℕ → Bool
passes_to test zero = true
passes_to test (suc k) = test k && passes_to test k

passes_at :
    (test : ℕ → Bool) (bound : ℕ) {i : ℕ} → i < bound → passes_to test bound ≡ true → test i ≡ true
unfolding passes_to
passes_at test zero below all = absurd (omega arith)
passes_at test (suc k) {i} below all = ground (arith, passes_at test k {i = i})

ltb_lt : (a b : ℕ) → ltb a b ≡ true → a < b
ltb_lt a b h = ground arith

-- The bits of `b | 1 << k`, for every byte and every bit.
abbrev same : Bool → Bool → Bool
same true true = true
same false false = true
same _ _ = false

same_eq : (a b : Bool) → same a b ≡ true → a ≡ b
same_eq a b h = ground arith

abbrev or_entry : ℕ → ℕ → ℕ → Bool
or_entry k j b =
    same (bit_of (bit_or b (2 ^ k)) j) (if eqb j k then true else bit_of b j)
    && ltb (bit_or b (2 ^ k)) 256

or_table : passes_to (λ k. passes_to (λ j. passes_to (λ b. or_entry k j b) 256) 8) 8 ≡ true
unfolding passes_to
or_table = refl

or_entry_lem : (k j b : ℕ) → k < 8 → j < 8 → b < 256 → or_entry k j b ≡ true
or_entry_lem k j b hk hj hb =
    let row : passes_to (λ j. passes_to (λ b. or_entry k j b) 256) 8 ≡ true =
      passes_at (λ k. passes_to (λ j. passes_to (λ b. or_entry k j b) 256) 8) 8 hk or_table in
    passes_at (or_entry k j) 256 hb (passes_at (λ j. passes_to (λ b. or_entry k j b) 256) 8 hj row)

and_true : (a b : Bool) → (a && b) ≡ true → (a ≡ true) × (b ≡ true)
and_true a b h = ground arith

bit_of-or :
    (k j b : ℕ)
    → k < 8
    → j < 8
    → b < 256
    → (bit_of (bit_or b (2 ^ k)) j ≡ (if eqb j k then true else bit_of b j))
      × (bit_or b (2 ^ k) < 256)
bit_of-or k j b hk hj hb =
    let h = and_true _ _ (or_entry_lem k j b hk hj hb) in (same_eq _ _ h.0, ltb_lt _ _ h.1)

pub or_at-IsBytes : (idx k : ℕ) (bs : Bytes) → k < 8 → IsBytes bs → IsBytes (or_at idx (2 ^ k) bs)
unfolding or_at
or_at-IsBytes idx k [] hk h = tt
or_at-IsBytes zero k (b ∷ bs) hk h = ((bit_of-or k 0 b hk (omega arith) h.0).1, h.1)
or_at-IsBytes (suc idx) k (b ∷ bs) hk h = (h.0, or_at-IsBytes idx k bs hk h.1)

pub length-or_at : (idx bit : ℕ) (bs : Bytes) → length (or_at idx bit bs) ≡ length bs
unfolding or_at
length-or_at idx bit [] = refl
length-or_at zero bit (b ∷ bs) = refl
length-or_at (suc idx) bit (b ∷ bs) = ap suc (length-or_at idx bit bs)

get_or-or_at_self :
    (idx bit : ℕ) (bs : Bytes)
    → idx < length bs
    → get_or (or_at idx bit bs) idx 0 ≡ bit_or (get_or bs idx 0) bit
unfolding or_at
get_or-or_at_self idx bit [] h = absurd (omega arith)
get_or-or_at_self zero bit (b ∷ bs) h = refl
get_or-or_at_self (suc idx) bit (b ∷ bs) h = get_or-or_at_self idx bit bs (omega arith)

get_or-or_at_ne :
    (idx j bit : ℕ) (bs : Bytes) → idx ≢ j → get_or (or_at idx bit bs) j 0 ≡ get_or bs j 0
unfolding or_at
get_or-or_at_ne idx j bit [] h = refl
get_or-or_at_ne zero zero bit (b ∷ bs) h = absurd (h refl)
get_or-or_at_ne zero (suc j) bit (b ∷ bs) h = refl
get_or-or_at_ne (suc idx) zero bit (b ∷ bs) h = refl
get_or-or_at_ne (suc idx) (suc j) bit (b ∷ bs) h = get_or-or_at_ne idx j bit bs (λ e. h (ap suc e))

get_or-IsBytes : (bs : Bytes) (i : ℕ) → IsBytes bs → get_or bs i 0 < 256
get_or-IsBytes [] i h = omega arith
get_or-IsBytes (b ∷ bs) zero h = h.0
get_or-IsBytes (b ∷ bs) (suc i) h = get_or-IsBytes bs i h.1

-- Marking i sets bit i and no other.
pub read_bit-mark :
    (i j : ℕ) (bs : Bytes)
    → IsBytes bs
    → i / 8 < length bs
    → read_bit j (mark i bs) ≡ (if eqb j i then true else read_bit j bs)
unfolding mark
read_bit-mark i j bs h w = elim (Bool-cases (eqb (i / 8) (j / 8))) [
  | inl e ↦
      let k : ℕ = 7 - i % 8 in
      let m : ℕ = 7 - j % 8 in
      let b : ℕ = get_or bs (i / 8) 0 in
      let at : i / 8 ≡ j / 8 = (eqb_iff _ _).0 e in
      let value : get_or (mark i bs) (j / 8) 0 ≡ bit_or b (2 ^ k) =
        ap (λ q. get_or (mark i bs) q 0) (sym at) ∙ get_or-or_at_self (i / 8) (2 ^ k) bs w in
      let place : eqb m k ≡ eqb j i = ground arith in
      ap (λ x. bit_of x m) value
      ∙ (bit_of-or k m b (omega arith) (omega arith) (get_or-IsBytes bs (i / 8) h)).0
      ∙ ap (λ c. if c then true else bit_of b m) place
      ∙ ap (λ q. if eqb j i then true else bit_of (get_or bs q 0) m) at
  | inr e ↦
      let apart : i / 8 ≢ j / 8 = ground arith in
      let place : false ≡ eqb j i = ground arith in
      ap (λ x. bit_of x (7 - j % 8)) (get_or-or_at_ne (i / 8) (j / 8) (2 ^ (7 - i % 8)) bs apart)
      ∙ ap (λ c. if c then true else read_bit j bs) place
]
