-- ===== src/Math/Rounding.antt =====
-- The rounding macros and the halves of a 64-bit word of include/lib/math.h.
use native.Mathlib.Nat.{
  mod-eq_of_lt, lt-div-mul-add, div-lt_iff_lt-mul, suc-le-suc_iff, lt_of_le_of_lt, div-mul-le_self,
  mul-mod_left,
}
use native.Mathlib.Numerals.{add-one}
use mint.Base.{ℕ, ◌+◌, ◌-◌, ◌*◌, ◌/◌, ◌%◌, ◌^◌, ◌≤◌, ◌<◌, ◌≡◌, ap, arith}
use mint.Base.Bits.{bit_and_mask, bit_or_join}
use mint.Math.{u64, div_round_up, round_down, round_up, lower_32, upper_32, merge_64}

-- With a positive divisor and no wrap, `DIV_ROUND_UP(x, y)` is the least number of pieces of size `y` that hold `x`.
pub div_round_up_least :
    (x y : ℕ)
    → 0 < y
    → x + (y - 1) < 2 ^ 64
    → (x ≤ div_round_up x y * y) × ((m : ℕ) → x ≤ m * y → div_round_up x y ≤ m)
unfolding div_round_up
div_round_up_least x y p h = rw (mod-eq_of_lt h) (
  omega (arith, lt-div-mul-add {a = x + (y - 1)} p),
  λ m c.
      suc-le-suc_iff.0 ((div-lt_iff_lt-mul p).1 (omega (arith, ap (λ (t : ℕ). t * y) (add-one m)))),
)

multiple-lt : (x y : ℕ) → x < 2 ^ 64 → u64 (x / y * y) ≡ x / y * y
multiple-lt x y h = mod-eq_of_lt (lt_of_le_of_lt (div-mul-le_self x y) h)

-- With a positive `y` and no wrap, `ROUND_DOWN(x, y) ≤ x < ROUND_DOWN(x, y) + y` and
-- `x ≤ ROUND_UP(x, y) < x + y`, and both are multiples of `y`.
pub round_bounds :
    (x y : ℕ)
    → 0 < y
    → x + (y - 1) < 2 ^ 64
    → (round_down x y ≤ x)
      × (x < round_down x y + y)
      × (round_down x y % y ≡ 0)
      × (x ≤ round_up x y)
      × (round_up x y < x + y)
      × (round_up x y % y ≡ 0)
unfolding round_down round_up
round_bounds x y p h =
    rw (mod-eq_of_lt h, multiple-lt x y (omega arith), multiple-lt (x + (y - 1)) y h)
      (
        div-mul-le_self x y,
        lt-div-mul-add p,
        mul-mod_left (x / y) y,
        omega (arith, lt-div-mul-add {a = x + (y - 1)} p),
        omega (arith, div-mul-le_self (x + (y - 1)) y),
        mul-mod_left ((x + (y - 1)) / y) y,
      )

-- The halves of a 64-bit word make it up again.
pub merge_64_halves : (x : ℕ) → x < 2 ^ 64 → merge_64 (upper_32 x) (lower_32 x) ≡ x
unfolding merge_64 upper_32 lower_32
merge_64_halves x h =
    rw (bit_and_mask x 32, bit_and_mask (x / 2 ^ 32) 32)
      (let e : x / 2 ^ 32 % 2 ^ 32 * 2 ^ 32 % 2 ^ 64 ≡ x / 2 ^ 32 * 2 ^ 32 = omega arith in
        rw (e, bit_or_join 32 (x / 2 ^ 32) (x % 2 ^ 32) (omega arith)) (omega arith))
