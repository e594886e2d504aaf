-- ===== src/Buddy/Split.antt =====
-- The splitting loop of `buddy_alloc` in lib/buddy.c.
use native.Mathlib.Nat.{add-zero}
use mint.Base.{ℕ, zero, suc, ◌+◌, ◌%◌, ◌^◌, ◌≤◌, ◌<◌, ◌≡◌, refl, ◌∙◌, ap, arith, some}
use mint.Stack.{Ram}
use mint.Buddy.{Buddy, buddy_address, push_block, split}
use mint.Buddy.Cover.{Lists, inside, inside_self, inside_halves, aligned_half, buddy_of_lower}
use mint.Buddy.Invariant.{IsBuddy}
use mint.Buddy.Pages.{Keeps, Keeps-words, Keeps-trans, push_block-Keeps}
use mint.Buddy.Moves.{taken-IsBuddy, mark-IsBuddy, push_block-IsBuddy}

-- What a call leaves: the invariant with other bytes taken, the same orders, and the same words in
-- the pages outside the zone.
pub record Leaves (zone taken : ℕ → ℕ) (limit : ℕ) (b : Buddy) (ram : Ram) (b' : Buddy) (ram' : Ram)
    : Type 0 where
  pub free : Lists
  pub valid : IsBuddy zone taken limit ram' b' free
  pub same_min : b'.min_order ≡ b.min_order
  pub same_max : b'.max_order ≡ b.max_order
  pub keeps : Keeps zone ram ram'

pub held_in_zone :
    {zone taken : ℕ → ℕ} {limit : ℕ} {ram : Ram} {b : Buddy} {free : Lists} (a : ℕ)
    → IsBuddy zone taken limit ram b free
    → 0 < taken a
    → zone a ≡ 1
held_in_zone a v h = omega (arith, v.conserved a, v.once a)

-- The loop frees all of the block but the piece of order `original` at its start.
pub split-Leaves :
    (left original a : ℕ) (kept : ℕ → ℕ) {zone taken : ℕ → ℕ} {limit : ℕ} {b : Buddy} {ram : Ram}
    {free : Lists}
    → IsBuddy zone taken limit ram b free
    → b.min_order ≤ original
    → original + left ≤ b.max_order
    → a % 2 ^ (original + left) ≡ 0
    → ((x : ℕ) → taken x ≡ kept x + inside (original + left) a x)
    → (b' : Buddy) × (ram' : Ram) × (split left b original a ram ≡ some (b', ram'))
      × Leaves zone (λ x. kept x + inside original a x) limit b ram b' ram'
unfolding split push_block
split-Leaves zero original a kept {zone} {b} {ram} {free} v lo hi al t = (
  b,
  ram,
  refl,
  record {
    free = free;
    valid = taken-IsBuddy v _ (λ x. t x ∙ ap (λ k. kept x + inside k a x) (add-zero original));
    same_min = refl;
    same_max = refl;
    keeps = Keeps-words zone ram ram refl;
  },
)
split-Leaves (suc left) original a kept {zone} {taken} {limit} {b} {ram} {free} v lo hi al t =
    let e : original + suc left ≡ suc (original + left) = omega arith in
    let al' : a % 2 ^ suc (original + left) ≡ 0 = rw (← e) al in
    let z : zone a ≡ 1 =
      held_in_zone a v (omega (arith, t a, inside_self (original + suc left) a)) in
    let (bits, marks, v₁) = mark-IsBuddy v (original + suc left) a (omega arith) hi z in
    let (bits', marks', v₂) = mark-IsBuddy v₁ (original + left) a (omega arith) (omega arith) z in
    let (low, high) = aligned_half (original + left) a al' in
    let buddy_eq = buddy_of_lower (original + left) a al' in
    let halves : (x : ℕ)
        → taken x
          ≡ (kept x + inside (original + left) a x)
            + inside (original + left) (buddy_address a (original + left)) x =
      λ x. omega (
        arith,
        t x,
        ap (λ k. inside k a x) e,
        inside_halves (original + left) a x,
        ap (λ p. inside (original + left) p x) buddy_eq,
      ) in
    let v₃ =
      push_block-IsBuddy v₂ (original + left) (buddy_address a (original + left))
        (λ x. kept x + inside (original + left) a x) (omega arith) (omega arith) (rw buddy_eq high)
        halves in
    let pushed =
      push_block-Keeps v₂ (original + left) (buddy_address a (original + left)) (omega arith)
        (rw buddy_eq high)
        (omega (
          arith,
          halves (buddy_address a (original + left)),
          inside_self (original + left) (buddy_address a (original + left)),
        )) in
    let (b', ram', runs, leaves) =
      split-Leaves left original a kept v₃ lo (omega arith) low (λ x. refl) in
    (
      b',
      ram',
      rw (marks, marks') runs,
      record {
        free = leaves.free;
        valid = leaves.valid;
        same_min = leaves.same_min;
        same_max = leaves.same_max;
        keeps = Keeps-trans zone ram _ ram' pushed leaves.keeps;
      },
    )
