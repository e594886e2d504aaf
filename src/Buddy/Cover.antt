-- ===== src/Buddy/Cover.antt =====
-- How many free blocks of lib/buddy.c hold a byte: blocks overlap exactly where this is more than 1.
use native.Mathlib.Nat.{
  pow-succ', mul-div_left, div-mul_cancel, dvd_of_mod-eq-zero, mod-eq-zero_of_dvd, dvd-mul_left,
  dvd-add, dvd_refl, dvd_trans, mul-add-div_right,
}
use Prim.Native.Nat.{◌∣◌}
use native.Mathlib.Decide.{ℕ_discrete}
use mint.Base.{
  ℕ, zero, suc, ◌+◌, ◌-◌, ◌*◌, ◌/◌, ◌%◌, ◌^◌, ◌≤◌, ◌<◌, bit_xor, ◌&&◌, List, [], ◌∷◌, ◌≡◌, ◌≢◌,
  refl, ◌∙◌, ap, arith, ltb, leb, ◌==◌, ==_refl, ne→==-false, if◌then◌else◌,
}
use mint.Base.Bits.{bit, bit_xor_pow, pow_pos, pow-add}

-- The block of order `k` at `a` holds the byte `x`: 1 or 0.
abbrev pub inside : ℕ → ℕ → ℕ → ℕ
inside k a x = if leb a x && ltb x (a + 2 ^ k) then 1 else 0

pub covered : ℕ → List ℕ → ℕ → ℕ
covered k [] x = 0
covered k (a ∷ rest) x = inside k a x + covered k rest x

-- The free lists, by order.
abbrev pub Lists : Type 0
Lists = ℕ → List ℕ

abbrev pub put : Lists → ℕ → List ℕ → Lists
put free k blocks j = if k == j then blocks else free j

pub cover : ℕ → Lists → ℕ → ℕ
cover zero free x = 0
cover (suc n) free x = cover n free x + covered n (free n) x

pub covered-cons :
    (k a : ℕ) (rest : List ℕ) (x : ℕ) → covered k (a ∷ rest) x ≡ inside k a x + covered k rest x
unfolding covered
covered-cons k a rest x = refl

pub covered-nil : (k x : ℕ) → covered k [] x ≡ 0
unfolding covered
covered-nil k x = refl

pub cover-empty : (n x : ℕ) → cover n (λ _. []) x ≡ 0
unfolding cover
cover-empty zero x = refl
cover-empty (suc n) x = rw (cover-empty n x, covered-nil)

cover-put_above :
    (n : ℕ) (free : Lists) (k : ℕ) (blocks : List ℕ) (x : ℕ)
    → n ≤ k
    → cover n (put free k blocks) x ≡ cover n free x
unfolding cover
cover-put_above zero free k blocks x h = refl
cover-put_above (suc n) free k blocks x h =
    rw (ne→==-false k n (omega arith), cover-put_above n free k blocks x (omega arith))

-- A change of one list changes the count by that list.
pub cover-put :
    (n : ℕ) (free : Lists) (k : ℕ) (blocks : List ℕ) (x : ℕ)
    → k < n
    → cover n (put free k blocks) x + covered k (free k) x ≡ cover n free x + covered k blocks x
unfolding cover
cover-put zero free k blocks x h = absurd (omega arith)
cover-put (suc n) free k blocks x h = elim (ℕ_discrete k n) [
  | yes e ↦ rw (e, ==_refl n, cover-put_above n free n blocks x (omega arith)) (omega arith)
  | no ne ↦ rw (ne→==-false k n ne) (omega (arith, cover-put n free k blocks x (omega arith)))
]

pub covered-le-cover :
    (n : ℕ) (free : Lists) (k x : ℕ) → k < n → covered k (free k) x ≤ cover n free x
unfolding cover
covered-le-cover zero free k x h = absurd (omega arith)
covered-le-cover (suc n) free k x h = elim (ℕ_discrete k n) [
  | yes e ↦ rw e (omega arith)
  | no ne ↦ omega (arith, covered-le-cover n free k x (omega arith))
]

pub inside_self : (k a : ℕ) → inside k a a ≡ 1
inside_self k a = ground (arith, pow_pos k)

-- A block is made up of its two halves.
pub inside_halves : (k a x : ℕ) → inside (suc k) a x ≡ inside k a x + inside k (a + 2 ^ k) x
inside_halves k a x = ground (arith, pow-succ' 2 k)

-- A multiple of `2 ^ suc k` is an even number of pieces of `2 ^ k`.
even_pieces : (k a : ℕ) → a % 2 ^ suc k ≡ 0 → a ≡ (2 * (a / 2 ^ suc k)) * 2 ^ k
even_pieces k a h =
    let whole = div-mul_cancel (2 ^ suc k) {m = a} (dvd_of_mod-eq-zero (2 ^ suc k) h) in
    omega (arith, whole, ap (λ (t : ℕ). a / 2 ^ suc k * t) (pow-succ' 2 k))

pub aligned_half : (k a : ℕ) → a % 2 ^ suc k ≡ 0 → (a % 2 ^ k ≡ 0) × ((a + 2 ^ k) % 2 ^ k ≡ 0)
aligned_half k a h =
    let p : 2 ^ k ∣ a = rw (even_pieces k a h) (dvd-mul_left (2 ^ k) _) in
    (
      mod-eq-zero_of_dvd (2 ^ k) p,
      mod-eq-zero_of_dvd (2 ^ k) (dvd-add (2 ^ k) p (dvd_refl (2 ^ k))),
    )

-- The buddy of the lower half is the upper half.
pub buddy_of_lower : (k a : ℕ) → a % 2 ^ suc k ≡ 0 → bit_xor a (2 ^ k) ≡ a + 2 ^ k
buddy_of_lower k a h =
    let q = a / 2 ^ suc k in
    let pieces : a / 2 ^ k ≡ 2 * q =
      ap (λ (t : ℕ). t / 2 ^ k) (even_pieces k a h) ∙ mul-div_left (2 * q) (pow_pos k) in
    let even : bit a k ≡ 0 = omega (arith, pieces) in
    omega (arith, bit_xor_pow a k, ap (λ (t : ℕ). t * 2 ^ k) even)

-- Alignment at an order is alignment at every smaller one.
pub aligned_below : (j k a : ℕ) → j ≤ k → a % 2 ^ k ≡ 0 → a % 2 ^ j ≡ 0
aligned_below j k a h e =
    let sum : k ≡ (k - j) + j = omega arith in
    let d : 2 ^ j ∣ 2 ^ k = rw (sum, pow-add (k - j) j) (dvd-mul_left (2 ^ j) (2 ^ (k - j))) in
    mod-eq-zero_of_dvd (2 ^ j) (dvd_trans (2 ^ j) d (dvd_of_mod-eq-zero (2 ^ k) e))

-- So a block of order 12 or more starts a page.
pub aligned_page : (k a : ℕ) → 12 ≤ k → a % 2 ^ k ≡ 0 → a % 0x1000 ≡ 0
aligned_page k a h e = aligned_below 12 k a h e

-- A block and its buddy have different bits.
pub buddy_index-ne : (x k : ℕ) → x / 2 ^ k ≢ bit_xor x (2 ^ k) / 2 ^ k
buddy_index-ne x k same = elim (ℕ_discrete (bit x k) 0) [
  | yes clear ↦
      let up : bit_xor x (2 ^ k) ≡ 1 * 2 ^ k + x =
        omega (arith, bit_xor_pow x k, ap (λ (t : ℕ). t * 2 ^ k) clear) in
      let next = ap (λ (t : ℕ). t / 2 ^ k) up ∙ mul-add-div_right (pow_pos k) 1 x in
      absurd (omega arith)
  | no raised ↦
      let one : bit x k ≡ 1 = omega arith in
      let down : x ≡ 1 * 2 ^ k + bit_xor x (2 ^ k) =
        omega (arith, bit_xor_pow x k, ap (λ (t : ℕ). t * 2 ^ k) one) in
      let next =
        ap (λ (t : ℕ). t / 2 ^ k) down ∙ mul-add-div_right (pow_pos k) 1 (bit_xor x (2 ^ k)) in
      absurd (omega arith)
]
