-- ===== src/Server/Online/Bits.antt =====
-- The bitmap of an OnlineResponse, read back: bit i says of peer i if it is online.
use native.Mathlib.Nat.{zero-div}
use kinbridge_server.Prelude.{
  ℕ, zero, suc, ◌+◌, ◌-◌, ◌*◌, ◌/◌, ◌%◌, ◌^◌, ◌≤◌, ◌<◌, ◌≡◌, refl, ap, ◌∙◌, Bool, true, false, ◌||◌,
  String, List, [], ◌∷◌, map, length, get_or, arith, eqb, ltb, if◌then◌else◌,
}
use kinbridge_server.Env.{Ctx}
use kinbridge_server.Message.{Bytes}
use kinbridge_server.Peers.{PeerMap}
use kinbridge_server.Server.Online.{zeroed, mark, fill, is_online, online_states}
use kinbridge_server.Server.Online.Marks.{
  bit_of, read_bit, IsBytes, read_bit-mark, or_at-IsBytes, length-or_at,
}

mark-IsBytes : (i : ℕ) (bs : Bytes) → IsBytes bs → IsBytes (mark i bs)
unfolding mark
mark-IsBytes i bs h = or_at-IsBytes (i / 8) (7 - i % 8) bs (omega arith) h

length-mark : (i : ℕ) (bs : Bytes) → length (mark i bs) ≡ length bs
unfolding mark
length-mark i bs = length-or_at (i / 8) (2 ^ (7 - i % 8)) bs

if_same : (c x : Bool) → x ≡ (if c then x else x)
if_same true x = refl
if_same false x = refl

abbrev mark_if : Bool → ℕ → Bytes → Bytes
mark_if online i bs = if online then mark i bs else bs

mark_if-IsBytes : (online : Bool) (i : ℕ) (bs : Bytes) → IsBytes bs → IsBytes (mark_if online i bs)
mark_if-IsBytes true i bs h = mark-IsBytes i bs h
mark_if-IsBytes false i bs h = h

length-mark_if : (online : Bool) (i : ℕ) (bs : Bytes) → length (mark_if online i bs) ≡ length bs
length-mark_if true i bs = length-mark i bs
length-mark_if false i bs = refl

read_bit-mark_if :
    (online : Bool) (i j : ℕ) (bs : Bytes)
    → IsBytes bs
    → i / 8 < length bs
    → read_bit j (mark_if online i bs)
      ≡ (if eqb j i then online || read_bit j bs else read_bit j bs)
read_bit-mark_if true i j bs h w = read_bit-mark i j bs h w
read_bit-mark_if false i j bs h w = if_same (eqb j i) (read_bit j bs)

get_or-cons :
    (b : Bool) (xs : List Bool) (n : ℕ)
    → get_or (b ∷ xs) n false ≡ (if eqb n 0 then b else get_or xs (n - 1) false)
get_or-cons b xs zero = refl
get_or-cons b xs (suc n) =
    let p : n ≡ suc n - 1 = omega arith in ground (arith, ap (λ k. get_or xs k false) p)

combine :
    (i j : ℕ) (online : Bool) (rest : List Bool) (r : Bool)
    → (if ltb j (i + 1)
        then (if eqb j i then online || r else r)
        else get_or rest (j - (i + 1)) false || (if eqb j i then online || r else r))
      ≡ (if ltb j i then r else get_or (online ∷ rest) (j - i) false || r)
combine i j online rest r =
    let step : j - i - 1 ≡ j - (i + 1) = omega arith in
    rw (get_or-cons online rest (j - i), step) (ground arith)

-- Bit j after the loop from index i on.
read_bit-fill :
    (i j : ℕ) (onlines : List Bool) (bs : Bytes)
    → IsBytes bs
    → i + length onlines ≤ 8 * length bs
    → read_bit j (fill i onlines bs)
      ≡ (if ltb j i then read_bit j bs else get_or onlines (j - i) false || read_bit j bs)
unfolding fill
read_bit-fill i j [] bs h w = if_same (ltb j i) (read_bit j bs)
read_bit-fill i j (online ∷ rest) bs h w =
    let bs' : Bytes = mark_if online i bs in
    read_bit-fill (i + 1) j rest bs' (mark_if-IsBytes online i bs h)
      (omega (arith, length-mark_if online i bs))
    ∙ ap (λ x. if ltb j (i + 1) then x else get_or rest (j - (i + 1)) false || x)
        (read_bit-mark_if online i j bs h (omega arith))
    ∙ combine i j online rest (read_bit j bs)

zeroed-IsBytes : (n : ℕ) → IsBytes (zeroed n)
unfolding zeroed
zeroed-IsBytes zero = tt
zeroed-IsBytes (suc n) = (omega arith, zeroed-IsBytes n)

length-zeroed : (n : ℕ) → length (zeroed n) ≡ n
unfolding zeroed
length-zeroed zero = refl
length-zeroed (suc n) = ap suc (length-zeroed n)

get_or-zeroed : (n i : ℕ) → get_or (zeroed n) i 0 ≡ 0
unfolding zeroed
get_or-zeroed zero i = refl
get_or-zeroed (suc n) zero = refl
get_or-zeroed (suc n) (suc i) = get_or-zeroed n i

read_bit-zeroed : (n j : ℕ) → read_bit j (zeroed n) ≡ false
read_bit-zeroed n j =
    ap (λ b. bit_of b (7 - j % 8)) (get_or-zeroed n (j / 8))
    ∙ ap (λ x. eqb (x % 2) 1) (zero-div (2 ^ (7 - j % 8)))

length-map : (f : String → Bool) (xs : List String) → length (map f xs) ≡ length xs
length-map f [] = refl
length-map f (x ∷ xs) = ap suc (length-map f xs)

length-fill : (i : ℕ) (onlines : List Bool) (bs : Bytes) → length (fill i onlines bs) ≡ length bs
unfolding fill
length-fill i [] bs = refl
length-fill i (online ∷ rest) bs =
    length-fill (i + 1) rest (mark_if online i bs) ∙ length-mark_if online i bs

from_zero :
    (onlines : List Bool) (j : ℕ)
    → (if ltb j 0 then false else get_or onlines (j - 0) false || false) ≡ get_or onlines j false
from_zero onlines j =
    let p : j - 0 ≡ j = omega arith in ground (arith, ap (λ k. get_or onlines k false) p)

-- The answer to an OnlineRequest for n peers has (n + 7) / 8 bytes, and its bit j, counted from the
-- left of the first byte, is set exactly if there is a j-th peer and it is online.
pub online_states-read_bit :
    (ctx : Ctx) (pm : PeerMap) (peers : List String) (j : ℕ)
    → (length (online_states ctx pm peers) ≡ (length peers + 7) / 8)
      × (read_bit j (online_states ctx pm peers) ≡ get_or (map (is_online ctx pm) peers) j false)
unfolding online_states
online_states-read_bit ctx pm peers j =
    let bs : Bytes = zeroed ((length peers + 7) / 8) in
    let onlines : List Bool = map (is_online ctx pm) peers in
    (
      length-fill 0 onlines bs ∙ length-zeroed ((length peers + 7) / 8),
      read_bit-fill 0 j onlines bs (zeroed-IsBytes ((length peers + 7) / 8)) (
            omega
              (arith, length-map (is_online ctx pm) peers, length-zeroed ((length peers + 7) / 8)))
          ∙ ap (λ x. if ltb j 0 then x else get_or onlines (j - 0) false || x)
              (read_bit-zeroed ((length peers + 7) / 8) j)
          ∙ from_zero onlines j,
    )
