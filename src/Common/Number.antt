-- ===== src/Common/Number.antt =====
-- Numbers as texts: Display of an unsigned integer, and FromStr of a usize, of a u16 and of an i32.
pub mod Printed
use Prim.Native.Char.{code}
use Prim.Native.String.{String, ◌++◌ as append}
use kinbridge_server.Prelude.{
  ℕ, zero, suc, ◌+◌, ◌-◌, ◌*◌, ◌/◌, ◌%◌, ◌^◌, Bool, ◌&&◌, Option, none, some, ltb, leb, eqb,
  if◌then◌else◌,
}
use kinbridge_server.Prelude.Int.{ℤ, pos, negsuc}

abbrev digit_text : ℕ → String
digit_text zero = "0"
digit_text (suc zero) = "1"
digit_text (suc (suc zero)) = "2"
digit_text (suc (suc (suc zero))) = "3"
digit_text (suc (suc (suc (suc zero)))) = "4"
digit_text (suc (suc (suc (suc (suc zero))))) = "5"
digit_text (suc (suc (suc (suc (suc (suc zero)))))) = "6"
digit_text (suc (suc (suc (suc (suc (suc (suc zero))))))) = "7"
digit_text (suc (suc (suc (suc (suc (suc (suc (suc zero)))))))) = "8"
digit_text _ = "9"

-- The digits of a number below 10 ^ rounds.
show_digits : ℕ → ℕ → String
show_digits zero n = ""
show_digits (suc rounds) n =
    let higher = show_digits rounds (n / 10) in
    append (if ltb n 10 then "" else higher) (digit_text (n % 10))

-- Every usize is below 10 ^ 20.
unfoldable pub show_nat : ℕ → String
unfolding show_digits
show_nat n = show_digits 20 n

is_digit : ℕ → Bool
is_digit c = leb b'0' c && leb c b'9'

parse_digits : ℕ → String → Option ℕ
unfolding is_digit
parse_digits n String.[] = some n
parse_digits n (String.◌∷◌ c s) =
    let rest = parse_digits (n * 10 + (code c - b'0')) s in if is_digit (code c) then rest else none

-- At least one digit.
parse_nat : String → Option ℕ
unfolding parse_digits
parse_nat String.[] = none
parse_nat (String.◌∷◌ c s) = parse_digits 0 (String.◌∷◌ c s)

below : ℕ → Option ℕ → Option ℕ
below bound none = none
below bound (some n) = if ltb n bound then some n else none

-- A sign `+` may stand in front.
unsigned : String → Option ℕ
unfolding parse_nat
unsigned String.[] = none
unsigned (String.◌∷◌ c s) = if eqb (code c) b'+' then parse_nat s else parse_nat (String.◌∷◌ c s)

unfoldable pub parse_usize : String → Option ℕ
unfolding below unsigned
parse_usize s = below (2 ^ 64) (unsigned s)

unfoldable pub parse_u16 : String → Option ℕ
unfolding below unsigned
parse_u16 s = below (2 ^ 16) (unsigned s)

positive : Option ℕ → Option ℤ
positive none = none
positive (some n) = some (pos n)

negative : Option ℕ → Option ℤ
negative none = none
negative (some zero) = some (pos 0)
negative (some (suc n)) = some (negsuc n)

unfoldable pub parse_i32 : String → Option ℤ
unfolding below unsigned positive negative parse_nat
parse_i32 String.[] = none
parse_i32 (String.◌∷◌ c s) =
    if eqb (code c) b'-'
    then negative (below (2 ^ 31 + 1) (parse_nat s))
    else positive (below (2 ^ 31) (unsigned (String.◌∷◌ c s)))

unfoldable pub show_int : ℤ → String
unfolding show_nat
show_int (pos n) = show_nat n
show_int (negsuc n) = append "-" (show_nat (n + 1))
