-- ===== src/Numbers/Digits.antt =====
-- The number loops of lib/printf.c: which digits come out, for every base from 2 on.
use mathlib.Core.Bool.{true≢false}
use native.Mathlib.Nat.{
  pow-le-pow_left, mod-eq_of_lt, pow-succ', one-le-pow, add-zero, mul_comm, div-lt_iff_lt-mul,
  le-div_iff_mul-le, div-add-mod', mul-div_cancel, pow-zero, div-one, div-eq_of_lt, mod-lt,
}
use mint.Base.{
  ℕ, zero, suc, ◌+◌, ◌*◌, ◌/◌, ◌%◌, ◌^◌, ◌≤◌, ◌<◌, ◌≢◌, List, [], ◌∷◌, ◌++◌, Bool, true, false, ◌≡◌,
  ◌⊎◌, inl, inr, refl, sym, ◌∙◌, arith, if◌then◌else◌, lt→ltb, le→leb, gt→leb, ne→==-false,
}
use native.Mathlib.Decide.{dec_lt, ℕ_discrete}
use mathlib.Core.List.{map}
use mint.Numbers.{Parameters, top_power, digit_loop, digit_char, unsigned_chars, ull2a}

-- The number that digits spell behind `acc`.
unfoldable pub value : ℕ → ℕ → List ℕ → ℕ
value base acc [] = acc
value base acc (d ∷ ds) = value base (acc * base + d) ds

abbrev pub AllBelow : ℕ → List ℕ → Type 0
AllBelow base [] = Unit {0}
AllBelow base (d ∷ ds) = (d < base) × AllBelow base ds

power_pos : (base k : ℕ) → 2 ≤ base → 0 < base ^ k
power_pos base k two = one-le-pow k base (omega arith)

-- The loop stops at a power whose next one is above the number, and which is not above it itself
-- unless it is 1.
record IsTop (base num d : ℕ) (limit : ℕ) : Type 0 where
  pub exponent : ℕ
  pub power : d ≡ base ^ exponent
  pub above : num < base ^ suc exponent
  pub not_far : exponent ≤ limit

top_power-IsTop :
    (w fuel base num j : ℕ)
    → 2 ≤ base
    → num < 2 ^ w
    → num < base ^ (j + fuel)
    → IsTop base num (top_power w fuel base num (base ^ j)) (j + fuel)
unfolding top_power
top_power-IsTop w zero base num j two small bound =
    let lower : num < base ^ j = rw (add-zero j) at bound in
    record {
      exponent = j;
      power = refl;
      above = rw (pow-succ' base j) (grind arith);
      not_far = omega arith;
    }
top_power-IsTop w (suc fuel) base num j two small bound = elim (dec_lt (num / base ^ j) base) [
  | yes q ↦ rw (gt→leb base (num / base ^ j) q) (record {
    exponent = j;
    power = refl;
    above = rw (pow-succ' base j) ((div-lt_iff_lt-mul (power_pos base j two)).0 q);
    not_far = omega arith;
  })
  | no q ↦
      let fits : base * base ^ j ≤ num =
        (le-div_iff_mul-le (power_pos base j two)).0 (omega arith) in
      let e : base ^ j * base % 2 ^ w ≡ base ^ suc j =
        rw (pow-succ' base j, mul_comm (base ^ j) base) (mod-eq_of_lt (omega arith)) in
      let next : j + suc fuel ≡ suc j + fuel = omega arith in
      let rest = top_power-IsTop w fuel base num (suc j) two small (rw next at bound) in
      rw (le→leb base (num / base ^ j) (omega arith), e, next) rest
]

-- One round of the loop, at a power that is not 0: it puts a digit, or it skips a leading 0.
round_cases :
    (fuel base num d : ℕ) (n : Bool)
    → d ≢ 0
    → let tail = digit_loop fuel base (num % d) (d / base) in
      (digit_loop (suc fuel) base num d n ≡ num / d ∷ tail true)
      ⊎ ((n ≡ false)
          × (num / d ≡ 0)
          × (d / base ≢ 0)
          × (digit_loop (suc fuel) base num d n ≡ tail false))
unfolding digit_loop
round_cases fuel base num d true ne = inl (rw (ne→==-false d 0 ne) refl)
round_cases fuel base num d false ne = elim (dec_lt 0 (num / d)) [
  | yes lt ↦ inl (rw (ne→==-false d 0 ne, lt→ltb 0 (num / d) lt) refl)
  | no ge ↦
      let none : num / d ≡ 0 = omega arith in
      elim (ℕ_discrete (d / base) 0) [
        | yes e ↦ inl (rw (ne→==-false d 0 ne, none, e) refl)
        | no ne' ↦
            inr (refl, none, ne', rw (ne→==-false d 0 ne, none, ne→==-false (d / base) 0 ne') refl)
      ]
]

at_zero : (fuel base num : ℕ) (n : Bool) → digit_loop fuel base num 0 n ≡ []
unfolding digit_loop
at_zero zero base num n = refl
at_zero (suc fuel) base num n = refl

-- At the power 1 the last digit comes.
last_digit :
    (fuel base num : ℕ) (n : Bool) → 2 ≤ base → digit_loop (suc fuel) base num 1 n ≡ num ∷ []
last_digit fuel base num n two =
    let stops : 1 / base ≡ 0 = div-eq_of_lt (omega arith) in
    elim (round_cases fuel base num 1 n (omega arith)) [
      | inl e ↦ e ∙ rw (stops, div-one num, at_zero fuel base (num % 1) true) refl
      | inr (e, q, ne, r) ↦ absurd (ne stops)
    ]

carry :
    (acc base q d r num : ℕ) → q * d + r ≡ num → (acc * base + q) * d + r ≡ acc * (base * d) + num
carry acc base q d r num h = grind arith

-- From the power `base ^ k` on, the digits continue `acc` by the number.
digit_loop-value :
    (base : ℕ)
    → 2 ≤ base
    → (k fuel num acc : ℕ) (n : Bool) → num < base ^ suc k
    → k < fuel
    → (n ≡ true) ⊎ (acc ≡ 0)
    → (value base acc (digit_loop fuel base num (base ^ k) n) ≡ acc * base ^ suc k + num)
      × AllBelow base (digit_loop fuel base num (base ^ k) n)
unfolding value
digit_loop-value base two k zero num acc n small enough start = absurd (omega arith)
digit_loop-value base two zero (suc fuel) num acc n small enough start =
    rw (pow-zero base, last_digit fuel base num n two, pow-succ' base 0, pow-zero base)
      (grind arith, (omega (arith, rw (pow-succ' base 0, pow-zero base) at small), tt))
digit_loop-value base two (suc k) (suc fuel) num acc n small enough start =
    let d = base ^ suc k in
    let pos : 0 < d = power_pos base (suc k) two in
    let below : d / base ≡ base ^ k =
      rw (pow-succ' base k, mul_comm base (base ^ k)) (mul-div_cancel (base ^ k) (omega arith)) in
    let small_rest : num % d < d = mod-lt num pos in
    let digit : num / d < base = (div-lt_iff_lt-mul pos).1 (rw (← pow-succ' base (suc k)) small) in
    let whole : num / d * d + num % d ≡ num = div-add-mod' num d in
    elim (rw below at (round_cases fuel base num d n (omega arith))) [
      | inl e ↦
          let (v, all) =
            digit_loop-value base two k fuel (num % d) (acc * base + num / d) true small_rest
              (omega arith) (inl refl) in
          rw e (
            rw v (rw (pow-succ' base (suc k)) (carry acc base (num / d) d (num % d) num whole)),
            (digit, all),
          )
      | inr (e, q, ne, r) ↦
          let same : num % d ≡ num = omega (arith, rw q at whole) in
          let nothing : acc ≡ 0 = elim start [
            | inl t ↦ absurd (true≢false (sym t ∙ e))
            | inr z ↦ z
          ] in
          let (v, all) =
            digit_loop-value base two k fuel (num % d) acc false small_rest (omega arith)
              (inr nothing) in
          rw r (rw v (rw (nothing, same) (omega arith)), all)
    ]

-- The two loops together.
pub all_digits :
    (w base num : ℕ)
    → 2 ≤ base
    → num < 2 ^ w
    → let ds = digit_loop (suc w) base num (top_power w w base num 1) false in
      (value base 0 ds ≡ num) × AllBelow base ds
all_digits w base num two small =
    let enough : num < base ^ (0 + w) =
      let wider = pow-le-pow_left two w in
      let e : 0 + w ≡ w = omega arith in rw e (omega (arith, wider)) in
    let top = rw (pow-zero base) at (top_power-IsTop w w base num 0 two small enough) in
    let (v, all) =
      digit_loop-value base two top.exponent (suc w) num 0 false top.above
        (omega (arith, top.not_far)) (inr refl) in
    rw top.power (v ∙ omega arith, all)

sign_append :
    (b : Bool) (s : List ℕ) → (if b then b'-' ∷ s else s) ≡ (if b then b'-' ∷ [] else []) ++ s
sign_append true s = refl
sign_append false s = refl

-- For a base from 2 on, `ull2a` puts a minus sign if it is told to, and then the characters of digits
-- below the base that spell the number, whatever its 64 bits are.
pub ull2a-AllBelow :
    (num : ℕ) (p : Parameters)
    → 2 ≤ p.base
    → (ds : List ℕ) × (ull2a num p
        ≡ (if p.is_negative then b'-' ∷ [] else []) ++ map (digit_char p.uppercase) ds)
      × AllBelow p.base ds
      × (value p.base 0 ds ≡ num % 2 ^ 64)
unfolding ull2a unsigned_chars
ull2a-AllBelow num p two =
    let (v, all) = all_digits 64 p.base (num % 2 ^ 64) two (omega arith) in
    (
      digit_loop 65 p.base (num % 2 ^ 64) (top_power 64 64 p.base (num % 2 ^ 64) 1) false,
      sign_append p.is_negative _,
      all,
      v,
    )
