-- ===== src/Math/Log.antt =====
-- `log_2` of include/lib/math.h: the bit that it finds, and the rounding up.
use native.Mathlib.Nat.{
  mod-eq_of_lt, pow-le-pow_right, pow-succ', div-lt_iff_lt-mul, div-eq_of_lt, lt_of_le_of_lt,
  suc-le-suc_iff, le-div_iff_mul-le,
}
use native.Mathlib.Decide.{dec_lt}
use native.Mathlib.Numerals.{add-one}
use mint.Base.{
  ℕ, zero, suc, ◌+◌, ◌-◌, ◌*◌, ◌/◌, ◌^◌, ◌≤◌, ◌<◌, bit_and, List, [], ◌∷◌, ◌≡◌, ◌≢◌, ◌⊎◌, inl, inr,
  refl, ◌∙◌, ap, ap₂, arith, ◌==◌, ne→==-false, if◌then◌else◌,
}
use mint.Base.Bits.{
  pow_pos, pow-add, bit_and_mask, bit_and_shifted, bit_and_pred_pow, bit_and_pred-ne-zero,
}
use mint.Math.{log_2, log_2_loop, log_2_masks, u64}

-- `n` is the position of the highest bit of `x`.
abbrev IsFloor : ℕ → ℕ → Type 0
IsFloor x n = (2 ^ n ≤ x) × (x < 2 ^ suc n)

pow_le-le : (a b : ℕ) → 2 ^ a ≤ 2 ^ b → a ≤ b
pow_le-le a b h = elim (dec_lt b a) [
  | yes p ↦ absurd (
      omega (
        arith,
        pow-succ' 2 b,
        pow_pos b,
        pow-le-pow_right {n = 2} (omega arith) {i = suc b} {j = a} p,
      ))
  | no p ↦ omega arith
]

pow_lt-lt : (a b : ℕ) → 2 ^ a < 2 ^ b → a < b
pow_lt-lt a b h = elim (dec_lt a b) [
  | yes p ↦ p
  | no p ↦
      absurd (omega (arith, pow-le-pow_right {n = 2} (omega arith) {i = b} {j = a} (omega arith)))
]

-- A mask of `j` ones above `j` zeros tests whether `x` needs more than `j` bits.
upper_mask : (x j : ℕ) → x < 2 ^ j * 2 ^ j → bit_and x ((2 ^ j - 1) * 2 ^ j) ≡ x / 2 ^ j * 2 ^ j
upper_mask x j h = rw (
  bit_and_shifted x (2 ^ j - 1) j,
  bit_and_mask,
  mod-eq_of_lt ((div-lt_iff_lt-mul (pow_pos j)).1 h),
)

upper_mask-ne-zero : (x j : ℕ) → x < 2 ^ j * 2 ^ j → 2 ^ j ≤ x → bit_and x ((2 ^ j - 1) * 2 ^ j) ≢ 0
upper_mask-ne-zero x j h le e =
    let one_le : 1 ≤ x / 2 ^ j = (le-div_iff_mul-le (pow_pos j)).1 (omega arith) in
    let covers : 2 ^ j ≤ x / 2 ^ j * 2 ^ j = grind arith in
    absurd (omega (arith, upper_mask x j h, pow_pos j))

IsFloor-shift : (x n j : ℕ) → IsFloor x n → 2 ^ j ≤ x → (j ≤ n) × IsFloor (x / 2 ^ j) (n - j)
IsFloor-shift x n j f h =
    let low : j ≤ n = suc-le-suc_iff.0 (pow_lt-lt j (suc n) (lt_of_le_of_lt h f.1)) in
    let e : 2 ^ n ≡ 2 ^ (n - j) * 2 ^ j = ap (λ (t : ℕ). 2 ^ t) (omega arith) ∙ pow-add (n - j) j in
    let below : x < 2 ^ suc (n - j) * 2 ^ j =
      omega (arith, e, pow-succ' 2 n, ap (λ (t : ℕ). t * 2 ^ j) (pow-succ' 2 (n - j))) in
    (
      low,
      ((le-div_iff_mul-le (pow_pos j)).1 (rw (← e) f.0), (div-lt_iff_lt-mul (pow_pos j)).1 below),
    )

-- The two outcomes of a round.
round_low :
    (t : ℕ) (ts : List ℕ) (j x y : ℕ)
    → bit_and x t ≡ 0
    → log_2_loop (t ∷ ts) j x y ≡ log_2_loop ts (j / 2) x y
unfolding log_2_loop
round_low t ts j x y e = rw e (ap₂ (log_2_loop ts (j / 2)) (omega arith) (omega arith))

round_high :
    (t : ℕ) (ts : List ℕ) (j x y : ℕ)
    → bit_and x t ≢ 0
    → log_2_loop (t ∷ ts) j x y ≡ log_2_loop ts (j / 2) (x / 2 ^ j) (y + j)
unfolding log_2_loop
round_high t ts j x y ne = rw (ne→==-false _ 0 ne) refl

module _ (ts : List ℕ) (j : ℕ) where
  -- One round of the loop, once the rounds that follow are known to find the highest bit.
  round_lem :
      ((x n y : ℕ) → IsFloor x n → x < 2 ^ j → log_2_loop ts (j / 2) x y ≡ y + n)
      → (x n y : ℕ) → IsFloor x n
      → x < 2 ^ j * 2 ^ j
      → log_2_loop (((2 ^ j - 1) * 2 ^ j) ∷ ts) j x y ≡ y + n
  round_lem rest x n y f h = elim (dec_lt x (2 ^ j)) [
    | yes p ↦
        round_low _ ts j x y (upper_mask x j h ∙ grind (arith, div-eq_of_lt p)) ∙ rest x n y f p
    | no p ↦
        let (low, f') = IsFloor-shift x n j f (omega arith) in
        round_high _ ts j x y (upper_mask-ne-zero x j h (omega arith))
        ∙ rest (x / 2 ^ j) (n - j) (y + j) f' ((div-lt_iff_lt-mul (pow_pos j)).1 h)
        ∙ omega arith
  ]

loop_end : (x n y : ℕ) → IsFloor x n → x < 2 ^ 1 → log_2_loop [] 0 x y ≡ y + n
unfolding log_2_loop
loop_end x n y f h = omega (arith, pow_lt-lt n 1 (lt_of_le_of_lt f.0 h))

-- The loop adds the position of the highest bit.
loop_lem : (x n y : ℕ) → IsFloor x n → x < 2 ^ 64 → log_2_loop log_2_masks 32 x y ≡ y + n
loop_lem =
    round_lem _ 32
      (round_lem _ 16 (round_lem _ 8 (round_lem _ 4 (round_lem _ 2 (round_lem _ 1 loop_end)))))

-- Every positive number has a highest bit.
floor : (n x : ℕ) → 0 < x → x < 2 ^ n → (k : ℕ) × IsFloor x k
floor zero x p h = absurd (omega arith)
floor (suc n) x p h = elim (dec_lt x (2 ^ n)) [
  | yes q ↦ floor n x p q
  | no q ↦ (n, (omega arith, h))
]

abbrev pred64 : ℕ → ℕ
pred64 x = u64 (x + (2 ^ 64 - 1))

-- The initial value of `y`.
abbrev inexact : ℕ → ℕ
inexact x = if bit_and x (pred64 x) == 0 then 0 else 1

log_2_start : (x k y : ℕ) → IsFloor x k → x < 2 ^ 64 → inexact x ≡ y → log_2 x ≡ y + k
unfolding log_2
log_2_start x k y f h e = rw (← e) (loop_lem x k _ f h)

pred64-eq : (x : ℕ) → 0 < x → x < 2 ^ 64 → pred64 x ≡ x - 1
pred64-eq x p h = omega arith

-- An exact power of two gives its exponent.
log_2_pow : (x k : ℕ) → IsFloor x k → x < 2 ^ 64 → x ≡ 2 ^ k → log_2 x ≡ k
log_2_pow x k f h e = log_2_start x k 0 f h test ∙ omega arith
  where
    test : inexact x ≡ 0
    test = rw (pred64-eq x (omega (arith, pow_pos k)) h, e, bit_and_pred_pow k)

-- Any other number rounds up.
log_2_between : (x k : ℕ) → IsFloor x k → x < 2 ^ 64 → 2 ^ k < x → log_2 x ≡ k + 1
log_2_between x k f h p = log_2_start x k 1 f h test ∙ omega arith
  where
    test : inexact x ≡ 1
    test =
        rw (
          pred64-eq x (omega (arith, pow_pos k)) h,
          ne→==-false _ 0 (bit_and_pred-ne-zero k x p f.1),
        )

log_2_cases :
    (x : ℕ)
    → 0 < x
    → x < 2 ^ 64
    → (k : ℕ) × IsFloor x k × (((x ≡ 2 ^ k) × (log_2 x ≡ k)) ⊎ ((2 ^ k < x) × (log_2 x ≡ k + 1)))
log_2_cases x p h =
    let (k, f) = floor 64 x p h in
    (
      k,
      f,
      elim (dec_lt (2 ^ k) x) [
        | yes q ↦ inr (q, log_2_between x k f h q)
        | no q ↦ let e : x ≡ 2 ^ k = omega (arith, f.0) in inl (e, log_2_pow x k f h e)
      ],
    )

-- For a positive `uint64_t`, `2 ^ log_2 x` covers `x`, and no smaller exponent does.
pub log_2_least :
    (x : ℕ) → 0 < x → x < 2 ^ 64 → (x ≤ 2 ^ log_2 x) × ((m : ℕ) → x ≤ 2 ^ m → log_2 x ≤ m)
log_2_least x p h =
    let (k, f, c) = log_2_cases x p h in
    elim c [
      | inl (e, l) ↦ rw l (omega arith, λ m c. pow_le-le k m (rw (← e) c))
      | inr (q, l) ↦
          let covers : x ≤ 2 ^ (k + 1) = rw add-one (omega (arith, f.1)) in
          rw l (covers, λ m c. rw add-one (pow_lt-lt k m (omega arith)))
    ]

-- The loop also stops on 0, and gives 0.
pub log_2-zero : log_2 0 ≡ 0
unfolding log_2 log_2_loop
log_2-zero = refl
