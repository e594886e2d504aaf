-- ===== src/Math.antt =====
-- include/lib/math.h: the rounding macros, the halves of a 64-bit word, powers of two and `log_2`.
-- The macros are used on `size_t`, `addr_t` and `uint64_t`, so sums are taken modulo 2 ^ 64. Also
-- the conversion with which lib/printf.c returns a count.
pub mod Log
pub mod Rounding
use mint.Base.{
  ℕ, ◌+◌, ◌-◌, ◌*◌, ◌/◌, ◌%◌, ◌^◌, bit_and, bit_or, List, [], ◌∷◌, ◌==◌, if◌then◌else◌, ltb, ℤ, pos,
  negsuc,
}

-- A `uint64_t`, `size_t` or `addr_t`.
abbrev pub u64 : ℕ → ℕ
u64 n = n % 2 ^ 64

unfoldable pub div_round_up : ℕ → ℕ → ℕ
div_round_up x y = u64 (x + (y - 1)) / y

unfoldable pub round_down : ℕ → ℕ → ℕ
round_down x y = u64 (x / y * y)

unfoldable pub round_up : ℕ → ℕ → ℕ
round_up x y = u64 (u64 (x + (y - 1)) / y * y)

unfoldable pub lower_32 : ℕ → ℕ
lower_32 x = bit_and x 0xffff_ffff

unfoldable pub upper_32 : ℕ → ℕ
upper_32 x = bit_and (x / 2 ^ 32) 0xffff_ffff

unfoldable pub merge_64 : ℕ → ℕ → ℕ
merge_64 x y = bit_or (u64 (x * 2 ^ 32)) y

-- `1 << power` is an `int`: it is this number for a power up to 30, and undefined above.
abbrev pub pow_2 : ℕ → ℕ
pow_2 power = 2 ^ power

-- The table `t` of `log_2`.
abbrev log_2_masks : List ℕ
log_2_masks = 0xffff_ffff_0000_0000 ∷ 0xffff_0000 ∷ 0xff00 ∷ 0xf0 ∷ 0xc ∷ 0x2 ∷ []

-- The `for` loop over the table, at the shift `j`.
log_2_loop : List ℕ → ℕ → ℕ → ℕ → ℕ
log_2_loop [] j x y = y
log_2_loop (t ∷ ts) j x y =
    let k = if bit_and x t == 0 then 0 else j in log_2_loop ts (j / 2) (x / 2 ^ k) (y + k)

unfoldable pub log_2 : ℕ → ℕ
unfolding log_2_loop
log_2 x = log_2_loop log_2_masks 32 x (if bit_and x (u64 (x + (2 ^ 64 - 1))) == 0 then 0 else 1)

-- A `size_t` as an `int`.
abbrev pub int_of : ℕ → ℤ
int_of n = if ltb (n % 2 ^ 32) (2 ^ 31) then pos (n % 2 ^ 32) else negsuc (2 ^ 32 - 1 - n % 2 ^ 32)
