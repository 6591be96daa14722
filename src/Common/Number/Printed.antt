-- ===== src/Common/Number/Printed.antt =====
-- A number that was printed is read back.
use Prim.Native.Char.{Char, code}
use Prim.Native.String.{◌++◌ as append}
use text.Mathlib.TextLemmas.{nil-append, cons-append, append-eq-nil_iff}
use kinbridge_server.Prelude.{
  ℕ, zero, suc, ◌+◌, ◌-◌, ◌*◌, ◌/◌, ◌%◌, ◌^◌, ◌<◌, ◌≡◌, ◌≢◌, refl, sym, ap, ◌∙◌, false, String,
  Option, none, some, arith, ltb, eqb, inl, inr, Bool-cases, if◌then◌else◌,
}
use kinbridge_server.Prelude.Int.{pos}
use kinbridge_server.Common.Number.{
  digit_text, show_digits, show_nat, is_digit, parse_digits, parse_nat, below, unsigned,
  parse_usize, parse_u16, parse_i32, positive,
}

abbrev continue : Option ℕ → String → Option ℕ
continue none t = none
continue (some n) t = parse_digits n t

parse_digits-append :
    (s t : String) (n : ℕ) → parse_digits n (append s t) ≡ continue (parse_digits n s) t
unfolding parse_digits
parse_digits-append String.[] t n = rw (nil-append t) refl
parse_digits-append (String.◌∷◌ c s) t n = elim (Bool-cases (is_digit (code c))) [
  | inl e ↦ rw (cons-append c s t) (rw (e, parse_digits) (parse_digits-append s t _))
  | inr e ↦ rw (cons-append c s t) (rw (e, parse_digits) refl)
]

parse_digit : (d n : ℕ) → d < 10 → parse_digits n (digit_text d) ≡ some (n * 10 + d)
unfolding parse_digits is_digit
parse_digit zero n h = refl
parse_digit (suc zero) n h = refl
parse_digit (suc (suc zero)) n h = refl
parse_digit (suc (suc (suc zero))) n h = refl
parse_digit (suc (suc (suc (suc zero)))) n h = refl
parse_digit (suc (suc (suc (suc (suc zero))))) n h = refl
parse_digit (suc (suc (suc (suc (suc (suc zero)))))) n h = refl
parse_digit (suc (suc (suc (suc (suc (suc (suc zero))))))) n h = refl
parse_digit (suc (suc (suc (suc (suc (suc (suc (suc zero)))))))) n h = refl
parse_digit (suc (suc (suc (suc (suc (suc (suc (suc (suc zero))))))))) n h = refl
parse_digit (suc (suc (suc (suc (suc (suc (suc (suc (suc (suc k)))))))))) n h = absurd (omega arith)

abbrev power_of_ten : ℕ → ℕ
power_of_ten zero = 1
power_of_ten (suc rounds) = 10 * power_of_ten rounds

parse-show_digits :
    (rounds n : ℕ) → n < power_of_ten rounds → parse_digits 0 (show_digits rounds n) ≡ some n
unfolding show_digits parse_digits
parse-show_digits zero n h = ap some (omega arith)
parse-show_digits (suc rounds) n h = elim (Bool-cases (ltb n 10)) [
  | inl e ↦
      let small : n < 10 = ground arith in
      rw e (
        parse_digits-append "" (digit_text (n % 10)) 0
        ∙ parse_digit (n % 10) 0 (omega arith)
        ∙ ap some (omega arith))
  | inr e ↦
      let last = digit_text (n % 10) in
      rw e (
        parse_digits-append (show_digits rounds (n / 10)) last 0
        ∙ ap (λ o. continue o last) (parse-show_digits rounds (n / 10) (omega arith))
        ∙ parse_digit (n % 10) (n / 10) (omega arith)
        ∙ ap some (omega arith))
]

-- A character that is no digit does not begin a number.
no_number :
    (c : Char) (s : String) (n : ℕ)
    → is_digit (code c) ≡ false
    → parse_digits 0 (String.◌∷◌ c s) ≡ some n
    → ⊥
unfolding parse_digits
no_number c s n e h =
    let found : ◌≡◌ {A = Option ℕ} none (some n) =
      ap (λ b. if b then parse_digits (0 * 10 + (code c - b'0')) s else none) (sym e) ∙ h in
    cc

digit_text-ne : (d : ℕ) → d < 10 → digit_text d ≢ ""
unfolding parse_digits
digit_text-ne d h e =
    let found : ◌≡◌ {A = Option ℕ} (some 1) (some (1 * 10 + d)) =
      sym (ap (parse_digits 1) e) ∙ parse_digit d 1 h in
    ground arith

show_nat-ne : (n : ℕ) → show_nat n ≢ ""
unfolding show_nat show_digits
show_nat-ne n e = digit_text-ne (n % 10) (omega arith) (append-eq-nil_iff.0 e).1

-- A text of digits has no sign.
unsigned-digits : (s : String) (n : ℕ) → s ≢ "" → parse_digits 0 s ≡ some n → unsigned s ≡ some n
unfolding unsigned parse_nat
unsigned-digits String.[] n ne h = absurd (ne refl)
unsigned-digits (String.◌∷◌ c s) n ne h = elim (Bool-cases (eqb (code c) b'+')) [
  | inl e ↦ absurd (no_number c s n (unfold is_digit in ground arith) h)
  | inr e ↦ rw e h
]

unsigned-show_nat : (n : ℕ) → n < 2 ^ 64 → unsigned (show_nat n) ≡ some n
unfolding show_nat
unsigned-show_nat n h =
    unsigned-digits (show_nat n) n (show_nat-ne n) (parse-show_digits 20 n (omega arith))

below-some : (bound n : ℕ) → n < bound → below bound (some n) ≡ some n
unfolding below
below-some bound n h = ground arith

pub parse_usize-show_nat : (n : ℕ) → n < 2 ^ 64 → parse_usize (show_nat n) ≡ some n
unfolding parse_usize
parse_usize-show_nat n h = ap (below (2 ^ 64)) (unsigned-show_nat n h) ∙ below-some (2 ^ 64) n h

pub parse_u16-show_nat : (n : ℕ) → n < 2 ^ 16 → parse_u16 (show_nat n) ≡ some n
unfolding parse_u16
parse_u16-show_nat n h =
    ap (below (2 ^ 16)) (unsigned-show_nat n (omega arith)) ∙ below-some (2 ^ 16) n h

positive_text :
    (s : String) (n : ℕ)
    → s ≢ ""
    → parse_digits 0 s ≡ some n
    → n < 2 ^ 31
    → parse_i32 s ≡ some (pos n)
unfolding parse_i32
positive_text String.[] n ne h lt = absurd (ne refl)
positive_text (String.◌∷◌ c s) n ne h lt = elim (Bool-cases (eqb (code c) b'-')) [
  | inl e ↦ absurd (no_number c s n (unfold is_digit in ground arith) h)
  | inr e ↦ rw e (
      ap (λ o. positive (below (2 ^ 31) o)) (unsigned-digits (String.◌∷◌ c s) n ne h)
      ∙ ap positive (below-some (2 ^ 31) n lt)
      ∙ unfold positive in refl)
]

pub parse_i32-show_nat : (n : ℕ) → n < 2 ^ 31 → parse_i32 (show_nat n) ≡ some (pos n)
unfolding show_nat
parse_i32-show_nat n h =
    positive_text (show_nat n) n (show_nat-ne n) (parse-show_digits 20 n (omega arith)) h
