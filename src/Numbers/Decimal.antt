-- ===== src/Numbers/Decimal.antt =====
-- `a2u` of lib/printf.c reads what `ui2a` writes.
use mathlib.Core.List.{map}
use mint.Base.{
  ℕ, ◌+◌, ◌-◌, ◌*◌, ◌%◌, ◌^◌, ◌≤◌, ◌<◌, List, [], ◌∷◌, Bool, false, ◌≡◌, refl, ◌∙◌, arith, lt→ltb,
  le→leb,
}
use native.Mathlib.Nat.{mod-eq_of_lt}
use mint.Numbers.{Parameters, digit_char, unsigned_chars, ui2a, a2u_from, a2u}
use mint.Numbers.Digits.{value, AllBelow, all_digits}

value_grows : (acc : ℕ) (ds : List ℕ) → acc ≤ value 10 acc ds
unfolding value
value_grows acc [] = omega arith
value_grows acc (d ∷ ds) = omega (arith, value_grows (acc * 10 + d) ds)

-- One decimal digit is read.
read_digit :
    (uppercase : Bool) (acc d : ℕ) (src : List ℕ)
    → d < 10
    → acc * 10 + d < 2 ^ 32
    → a2u_from acc (digit_char uppercase d ∷ src) ≡ a2u_from (acc * 10 + d) src
unfolding a2u_from
read_digit uppercase acc d src small fits =
    let e : digit_char uppercase d ≡ d + 48 = rw (lt→ltb d 10 small) refl in
    let back : d + 48 - 48 ≡ d = omega arith in
    rw
      (
        e,
        back,
        le→leb 48 (d + 48) (omega arith),
        lt→ltb (d + 48) 128 (omega arith),
        le→leb d 10 (omega arith),
        mod-eq_of_lt fits,
      )
      refl

a2u_from_digits :
    (uppercase : Bool) (acc : ℕ) (ds : List ℕ)
    → AllBelow 10 ds
    → value 10 acc ds < 2 ^ 32
    → a2u_from acc (map (digit_char uppercase) ds) ≡ value 10 acc ds
unfolding value
a2u_from_digits uppercase acc [] all fits = unfold a2u_from in refl
a2u_from_digits uppercase acc (d ∷ ds) all fits =
    read_digit uppercase acc d (map (digit_char uppercase) ds) all.0
      (omega (arith, value_grows (acc * 10 + d) ds))
    ∙ a2u_from_digits uppercase (acc * 10 + d) ds all.1 fits

-- In base 10, with no minus sign asked for, `a2u` reads from what `ui2a` writes the low 32 bits that
-- `ui2a` was given.
pub a2u-ui2a :
    (num : ℕ) (p : Parameters)
    → p.base ≡ 10
    → p.is_negative ≡ false
    → a2u (ui2a num p) ≡ num % 2 ^ 32
unfolding a2u ui2a unsigned_chars
a2u-ui2a num p ten plain =
    let (v, all) = all_digits 32 10 (num % 2 ^ 32) (omega arith) (omega arith) in
    rw (ten, plain) (a2u_from_digits p.uppercase 0 _ all (omega (arith, v)) ∙ v)
