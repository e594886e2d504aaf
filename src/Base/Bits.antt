-- ===== src/Base/Bits.antt =====
-- `&`, `|` and `^` on numbers: the digit recursion, and what they do at a power of two or at a mask.
use Prim.Native.Nat.{
  ℕ, zero, suc, ◌+◌, ◌-◌, ◌*◌, ◌/◌, ◌%◌, ◌^◌, ◌≤◌, ◌<◌, min, max, differ, bit_and, bit_or, bit_xor,
  digits, bitwise, bit_and-bitwise, bit_or-bitwise, bit_xor-bitwise,
}
use mathlib.Core.Logic.{◌≢◌}
use mathlib.Core.Path.{◌≡◌, refl, ap}
use native.Mathlib.Nat.{
  pow-succ', pow-le-pow_right, one-le-pow, add-zero, div-div-eq-div-mul, mod-eq_of_lt, mod_self,
  le_refl,
}
use native.Mathlib.Omega.{arith}

-- Fuel above the first operand is enough for `digits`, and then its amount is of no account.
module _ (at_zero : ℕ → ℕ) (op : ℕ → ℕ → ℕ) where
  digits_fuel : (i x y j : ℕ) → x ≤ j → x ≤ i → digits at_zero op i x y ≡ digits at_zero op j x y
  digits_fuel (suc i) (suc x) y (suc j) h h' =
      rw (digits_fuel i (suc x / 2) (y / 2) j (omega arith) (omega arith))
  digits_fuel (suc i) zero y (suc j) h h' = refl
  digits_fuel (suc i) (suc x) y zero h h' = absurd (omega arith)
  digits_fuel (suc i) zero y zero h h' = refl
  digits_fuel zero (suc x) y j h h' = absurd (omega arith)
  digits_fuel zero zero y (suc j) h h' = refl
  digits_fuel zero zero y zero h h' = refl

  -- The lowest digit, and the recursion on the halves, for a positive first operand.
  low_digit :
      (x y : ℕ)
      → bitwise at_zero op (suc x) y
        ≡ op (suc x % 2) (y % 2) + 2 * bitwise at_zero op (suc x / 2) (y / 2)
  low_digit x y =
      let halves = digits_fuel x (suc x / 2) (y / 2) (suc x / 2) (omega arith) (omega arith) in
      omega (arith, halves)

pub bit_xor_step : (x y : ℕ) → bit_xor x y ≡ bit_xor (x / 2) (y / 2) * 2 + differ (x % 2) (y % 2)
bit_xor_step zero y = simp bit_xor-bitwise (omega arith)
bit_xor_step (suc x) y = simp bit_xor-bitwise (omega (arith, low_digit (λ v. v) differ x y))

pub bit_and_step : (x y : ℕ) → bit_and x y ≡ bit_and (x / 2) (y / 2) * 2 + min (x % 2) (y % 2)
bit_and_step zero y = simp bit_and-bitwise (omega arith)
bit_and_step (suc x) y = simp bit_and-bitwise (omega (arith, low_digit (λ v. 0) min x y))

pub bit_or_step : (x y : ℕ) → bit_or x y ≡ bit_or (x / 2) (y / 2) * 2 + max (x % 2) (y % 2)
bit_or_step zero y = simp bit_or-bitwise (omega arith)
bit_or_step (suc x) y = simp bit_or-bitwise (omega (arith, low_digit (λ v. v) max x y))

differ_eq : (a b : ℕ) → differ a b ≡ (a - b) + (b - a)
differ_eq zero b = omega arith
differ_eq (suc a) zero = omega arith
differ_eq (suc a) (suc b) = omega (arith, differ_eq a b)

-- Bit `k` of a number.
abbrev pub bit : ℕ → ℕ → ℕ
bit x k = x / 2 ^ k % 2

pub pow_pos : (k : ℕ) → 0 < 2 ^ k
pow_pos k = one-le-pow k 2 (omega arith)

pub pow-add : (a b : ℕ) → 2 ^ (a + b) ≡ 2 ^ a * 2 ^ b
pow-add a zero = rw add-zero (omega arith)
pow-add a (suc b) =
    let e : a + suc b ≡ suc (a + b) = omega arith in
    rw (e, pow-succ' 2 (a + b), pow-add a b, pow-succ' 2 b) (grind arith)

pub div-pow-suc : (x k : ℕ) → x / 2 ^ suc k ≡ x / 2 / 2 ^ k
div-pow-suc x k = rw (div-div-eq-div-mul, pow-succ') refl

bit_or-zero_below : (n a : ℕ) → a ≤ n → bit_or a 0 ≡ a
bit_or-zero_below n zero h = refl
bit_or-zero_below zero (suc a) h = absurd (omega arith)
bit_or-zero_below (suc n) (suc a) h =
    omega (arith, bit_or_step (suc a) 0, bit_or-zero_below n (suc a / 2) (omega arith))

bit_and-zero_below : (n a : ℕ) → a ≤ n → bit_and a 0 ≡ 0
bit_and-zero_below n zero h = refl
bit_and-zero_below zero (suc a) h = absurd (omega arith)
bit_and-zero_below (suc n) (suc a) h =
    omega (arith, bit_and_step (suc a) 0, bit_and-zero_below n (suc a / 2) (omega arith))

bit_xor-zero_below : (n a : ℕ) → a ≤ n → bit_xor a 0 ≡ a
bit_xor-zero_below n zero h = refl
bit_xor-zero_below zero (suc a) h = absurd (omega arith)
bit_xor-zero_below (suc n) (suc a) h = omega (
  arith,
  bit_xor_step (suc a) 0,
  bit_xor-zero_below n (suc a / 2) (omega arith),
  differ_eq (suc a % 2) 0,
)

pub bit_or-zero : (a : ℕ) → bit_or a 0 ≡ a
bit_or-zero a = bit_or-zero_below a a (le_refl a)

pub bit_and-zero : (a : ℕ) → bit_and a 0 ≡ 0
bit_and-zero a = bit_and-zero_below a a (le_refl a)

pub bit_xor-zero : (a : ℕ) → bit_xor a 0 ≡ a
bit_xor-zero a = bit_xor-zero_below a a (le_refl a)

-- One digit, with the second operand even or odd.
bit_and_even : (x b : ℕ) → bit_and x (2 * b) ≡ bit_and (x / 2) b * 2
bit_and_even x b = ground (arith, bit_and_step x (2 * b))

bit_and_odd : (x b : ℕ) → bit_and x (2 * b + 1) ≡ bit_and (x / 2) b * 2 + x % 2
bit_and_odd x b = ground (arith, bit_and_step x (2 * b + 1))

bit_or_even : (x b : ℕ) → bit_or x (2 * b) ≡ bit_or (x / 2) b * 2 + x % 2
bit_or_even x b = ground (arith, bit_or_step x (2 * b))

bit_xor_even : (x b : ℕ) → bit_xor x (2 * b) ≡ bit_xor (x / 2) b * 2 + x % 2
bit_xor_even x b = ground (arith, bit_xor_step x (2 * b), differ_eq (x % 2) (2 * b % 2))

-- At a single bit: `x & (1 << k)`, `x | (1 << k)` and `x ^ (1 << k)`.
pub bit_and_pow : (x k : ℕ) → bit_and x (2 ^ k) ≡ bit x k * 2 ^ k
bit_and_pow x zero = omega (arith, bit_and_step x 1, bit_and-zero (x / 2))
bit_and_pow x (suc k) =
    rw (pow-succ' 2 k, bit_and_even x (2 ^ k), bit_and_pow (x / 2) k, ← div-div-eq-div-mul)
      (omega arith)

pub bit_or_pow : (x k : ℕ) → bit_or x (2 ^ k) ≡ x + (1 - bit x k) * 2 ^ k
bit_or_pow x zero = omega (arith, bit_or_step x 1, bit_or-zero (x / 2))
bit_or_pow x (suc k) =
    rw (pow-succ' 2 k, bit_or_even x (2 ^ k), bit_or_pow (x / 2) k, ← div-div-eq-div-mul)
      (omega arith)

pub bit_xor_pow : (x k : ℕ) → bit_xor x (2 ^ k) + 2 * (bit x k * 2 ^ k) ≡ x + 2 ^ k
bit_xor_pow x zero = omega (arith, bit_xor_step x 1, bit_xor-zero (x / 2), differ_eq (x % 2) 1)
bit_xor_pow x (suc k) =
    rw (pow-succ' 2 k, bit_xor_even x (2 ^ k), ← div-div-eq-div-mul)
      (omega (arith, bit_xor_pow (x / 2) k))

-- `x & (2 ^ k - 1)` keeps the low `k` bits.
pub bit_and_mask : (x k : ℕ) → bit_and x (2 ^ k - 1) ≡ x % 2 ^ k
bit_and_mask x zero = omega (arith, bit_and-zero x)
bit_and_mask x (suc k) =
    let e : 2 ^ suc k - 1 ≡ 2 * (2 ^ k - 1) + 1 = omega (arith, pow-succ' 2 k, pow_pos k) in
    rw (e, bit_and_odd, bit_and_mask (x / 2) k, pow-succ' 2 k) (grind (arith, pow_pos k))

-- A mask that is shifted left reads the number shifted right.
pub bit_and_shifted : (x m k : ℕ) → bit_and x (m * 2 ^ k) ≡ bit_and (x / 2 ^ k) m * 2 ^ k
bit_and_shifted x m zero = ground arith
bit_and_shifted x m (suc k) =
    let e : m * 2 ^ suc k ≡ 2 * (m * 2 ^ k) =
      omega (arith, ap (λ (t : ℕ). m * t) (pow-succ' 2 k)) in
    rw (e, bit_and_even, bit_and_shifted (x / 2) m k, pow-succ' 2 k, ← div-div-eq-div-mul)
      (omega arith)

-- `x & ~(1 << k)` in a word of `w` bits.
pub bit_and_clear :
    (w k x : ℕ) → k < w → x < 2 ^ w → bit_and x (2 ^ w - 1 - 2 ^ k) + bit x k * 2 ^ k ≡ x
bit_and_clear zero k x h lt = absurd (omega arith)
bit_and_clear (suc w) zero x h lt =
    let e : 2 ^ suc w - 1 - 2 ^ 0 ≡ 2 * (2 ^ w - 1) = omega (arith, pow-succ' 2 w) in
    let small : x / 2 < 2 ^ w = omega (arith, pow-succ' 2 w) in
    rw (e, bit_and_even, bit_and_mask (x / 2) w, mod-eq_of_lt small) (omega arith)
bit_and_clear (suc w) (suc k) x h lt =
    let fits : 2 ^ suc k ≤ 2 ^ w = pow-le-pow_right (omega arith) (omega arith) in
    let e : 2 ^ suc w - 1 - 2 ^ suc k ≡ 2 * (2 ^ w - 1 - 2 ^ k) + 1 =
      omega (arith, pow-succ' 2 w, pow-succ' 2 k) in
    rw (e, bit_and_odd, pow-succ' 2 k, ← div-div-eq-div-mul)
      (omega (arith, bit_and_clear w k (x / 2) (omega arith) (omega (arith, pow-succ' 2 w))))

-- Two numbers with the same bits are equal.
pub bit_ext : (n a b : ℕ) → a < 2 ^ n → b < 2 ^ n → ((k : ℕ) → bit a k ≡ bit b k) → a ≡ b
bit_ext zero a b p q h = omega arith
bit_ext (suc n) a b p q h =
    let rest =
      bit_ext n (a / 2) (b / 2) (omega (arith, pow-succ' 2 n)) (omega (arith, pow-succ' 2 n))
        (λ k. rw (← div-pow-suc a k, ← div-pow-suc b k) (h (suc k))) in
    omega (arith, rest, h 0)

-- `x & (x - 1)` is 0 for 0 and the powers of two, and for nothing else.
pub bit_and_pred_pow : (k : ℕ) → bit_and (2 ^ k) (2 ^ k - 1) ≡ 0
bit_and_pred_pow k = rw bit_and_mask (mod_self (2 ^ k))

-- Two numbers with the same top bit keep it under `&`.
bit_and_top :
    (k a b : ℕ) → 2 ^ k ≤ a → a < 2 ^ suc k → 2 ^ k ≤ b → b < 2 ^ suc k → 2 ^ k ≤ bit_and a b
bit_and_top zero a b p q r s =
    let e : a ≡ 1 = omega arith in let f : b ≡ 1 = omega arith in rw (e, f) (omega arith)
bit_and_top (suc k) a b p q r s = omega (
  arith,
  pow-succ' 2 k,
  pow-succ' 2 (suc k),
  bit_and_step a b,
  bit_and_top k (a / 2) (b / 2) (omega (arith, pow-succ' 2 k)) (omega (arith, pow-succ' 2 (suc k)))
      (omega (arith, pow-succ' 2 k)) (omega (arith, pow-succ' 2 (suc k))),
)

pub bit_and_pred-ne-zero : (k x : ℕ) → 2 ^ k < x → x < 2 ^ suc k → bit_and x (x - 1) ≢ 0
bit_and_pred-ne-zero k x p q e =
    absurd (
      omega (arith, pow_pos k, bit_and_top k x (x - 1) (omega arith) q (omega arith) (omega arith)))

-- `(q << k) | r` with an `r` of `k` bits is the sum.
pub bit_or_join : (k q r : ℕ) → r < 2 ^ k → bit_or (q * 2 ^ k) r ≡ q * 2 ^ k + r
bit_or_join zero q r h = let e : r ≡ 0 = omega arith in rw (e, bit_or-zero) (omega arith)
bit_or_join (suc k) q r h =
    let e : q * 2 ^ suc k ≡ 2 * (q * 2 ^ k) =
      omega (arith, ap (λ (t : ℕ). q * t) (pow-succ' 2 k)) in
    let ih = bit_or_join k q (r / 2) (omega (arith, pow-succ' 2 k)) in
    rw (e, bit_or_step) (ground (arith, ih))
