-- ===== src/Tests/MathTests.antt =====
-- include/lib/math.h at concrete values.
use mint.Base.{ℕ, ◌+◌, ◌-◌, ◌*◌, ◌%◌, ◌^◌, ◌≤◌, ◌<◌, ◌≡◌, refl, arith}
use mint.Math.{log_2, div_round_up, round_up, round_down, merge_64, upper_32, lower_32}
use mint.Math.Log.{log_2_least}
use mint.Math.Rounding.{div_round_up_least, round_bounds, merge_64_halves}

log_2_values : (log_2 1 ≡ 0) × (log_2 0x1000 ≡ 12) × (log_2 0x1001 ≡ 13) × (log_2 (2 ^ 64 - 1) ≡ 64)
unfolding log_2
log_2_values = (refl, refl, refl, refl)

-- With no wrap left the macros round to 0.
round_up_wraps : round_up (2 ^ 64 - 1) 0x1000 ≡ 0
unfolding round_up
round_up_wraps = refl

log_2_least_example : (5 ≤ 2 ^ log_2 5) × ((m : ℕ) → 5 ≤ 2 ^ m → log_2 5 ≤ m)
log_2_least_example = log_2_least 5 (omega arith) (omega arith)

div_round_up_least_example :
    (17 ≤ div_round_up 17 8 * 8) × ((m : ℕ) → 17 ≤ m * 8 → div_round_up 17 8 ≤ m)
div_round_up_least_example = div_round_up_least 17 8 (omega arith) (omega arith)

round_bounds_example :
    (round_down 0x1234 0x1000 ≤ 0x1234)
    × (0x1234 < round_down 0x1234 0x1000 + 0x1000)
    × (round_down 0x1234 0x1000 % 0x1000 ≡ 0)
    × (0x1234 ≤ round_up 0x1234 0x1000)
    × (round_up 0x1234 0x1000 < 0x1234 + 0x1000)
    × (round_up 0x1234 0x1000 % 0x1000 ≡ 0)
round_bounds_example = round_bounds 0x1234 0x1000 (omega arith) (omega arith)

merge_64_halves_example :
    merge_64 (upper_32 0x123_4567_89ab_cdef) (lower_32 0x123_4567_89ab_cdef) ≡ 0x123_4567_89ab_cdef
merge_64_halves_example = merge_64_halves 0x123_4567_89ab_cdef (omega arith)
