-- ===== src/Buddy/Double.antt =====
-- The joining step of `buddy_free` in lib/buddy.c, where the buddy of the block is free.
use native.Mathlib.Decide.{ℕ_discrete}
use native.Mathlib.Numerals.{add-one}
use mint.Base.{
  ℕ, suc, ◌+◌, ◌-◌, ◌%◌, ◌^◌, ◌≤◌, ◌<◌, ◌∷◌, ◌≡◌, refl, false, ◌∙◌, ap, arith, some, ◌==◌, ==_refl,
  ne→==-false,
}
use mint.Math.{log_2}
use mint.Stack.{Ram}
use mint.Stack.Links.{IsStack, stack_push-IsStack, stack_push-other}
use mint.Buddy.{Buddy, with_bitset, push_block, free_loop, buddy_free}
use mint.Buddy.Cover.{
  Lists, put, inside, cover, covered, cover-put, covered-cons, inside_self, inside_halves,
  covered-le-cover, aligned_page,
}
use mint.Buddy.Invariant.{IsBuddy, page_IsFresh}
use mint.Buddy.Free.{Stops, GoesUp, free_loop-push, free_loop-up, unset_step}
use mint.Buddy.Split.{held_in_zone}

-- The free stacks of `b` hold the lists `free`.
abbrev pub Holds : Ram → Buddy → Lists → Type 0
Holds ram b free =
    (k : ℕ) → b.min_order ≤ k → k ≤ b.max_order + 1 → IsStack ram (b.orders k).free (free k)

module _ {zone taken : ℕ → ℕ} {limit : ℕ} {ram : Ram} {b : Buddy} {free : Lists}
    (v : IsBuddy zone taken limit ram b free) where
  push_block-Holds :
      (k a : ℕ)
      → b.min_order ≤ k
      → k ≤ b.max_order
      → a % 2 ^ k ≡ 0
      → 0 < taken a
      → let (b', ram') = push_block b k a ram in Holds ram' b' (put free k (a ∷ free k))
  unfolding push_block
  push_block-Holds k a lo hi al held j low h =
      let page = aligned_page k a (omega (arith, v.orders.page)) al in
      elim (ℕ_discrete k j) [
        | yes e ↦
            rw (← e, ==_refl k)
              (stack_push-IsStack ram (b.orders k).free a (free k) (page_IsFresh v a k page held)
                (v.stacks k lo (rw e h)))
        | no ne ↦ rw (ne→==-false k j ne) (
            stack_push-other ram (b.orders k).free (b.orders j).free a (free j)
              (page_IsFresh v a j page held) (v.stacks j low h))
      ]

module _ {zone taken : ℕ → ℕ} {limit : ℕ} {ram : Ram} {b : Buddy} {free : Lists}
    (v : IsBuddy zone taken limit ram b free) where
  -- Two rounds of the loop: up one order, and a push there.
  free_loop_twice :
      (left k a : ℕ)
      → b.min_order ≤ k
      → a % 2 ^ suc k ≡ 0
      → 0 < taken a
      → GoesUp b k a
      → Stops b (k + 1) a
      → (b' : Buddy) × (ram' : Ram) × (free_loop (suc (suc left)) b a k ram ≡ some (b', ram'))
        × Holds ram' b' (put free (k + 1) (a ∷ free (k + 1)))
  unfolding push_block
  free_loop_twice left k a lo al held up stops =
      let z = held_in_zone a v held in
      let (bits, unset, v₁, same) = unset_step v k a lo (omega (arith, up.below_max)) z in
      let (bits', unset', v₂, same') =
        unset_step v₁ (k + 1) a (omega arith) (omega (arith, up.below_max)) z in
      let other : (k == (k + 1)) ≡ false = ne→==-false k (k + 1) (omega arith) in
      let b₂ = with_bitset (with_bitset b k bits) (k + 1) bits' in
      (
        (push_block b₂ (k + 1) a ram).0,
        (push_block b₂ (k + 1) a ram).1,
        free_loop-up (suc left) k a b ram bits false unset (same ∙ up.test) refl up.below_max
            ∙ free_loop-push left (k + 1) a (with_bitset b k bits) ram bits' stops.in_use unset'
                (same' ∙ rw other stops.test) stops.last,
        push_block-Holds v₂ (k + 1) a (omega arith) (omega (arith, up.below_max)) (rw add-one al)
            held,
      )

  -- A byte of the upper half that is free already is free twice once the whole block is listed.
  cover_twice :
      (k a x : ℕ)
      → k < b.max_order
      → inside k a x ≤ taken x
      → inside k (a + 2 ^ k) x ≤ covered k (free k) x
      → inside k (a + 2 ^ k) x ≡ 1
      → cover 64 (put free (k + 1) (a ∷ free (k + 1))) x ≡ 2
  cover_twice k a x lt held listed e =
      let halves : inside (k + 1) a x ≡ inside k a x + inside k (a + 2 ^ k) x =
        rw add-one (inside_halves k a x) in
      omega (
        arith,
        halves,
        cover-put 64 free (k + 1) (a ∷ free (k + 1)) x (omega (arith, v.orders.small)),
        covered-cons (k + 1) a (free (k + 1)) x,
        covered-le-cover 64 free k x (omega (arith, v.orders.small)),
        v.conserved x,
        v.once x,
      )

  -- The lower half of a block is freed while the upper half is in the free list of its order, with
  -- its bit clear, and the loop stops at the next order. Then the upper half stays in its list, the
  -- whole block is pushed an order above, and each byte of the upper half is free twice.
  pub buddy_free_twice :
      (a size : ℕ)
      → let k = log_2 size in
        b.min_order ≤ k
        → a % 2 ^ suc k ≡ 0
        → ((x : ℕ) → inside k a x ≤ taken x)
        → ((x : ℕ) → inside k (a + 2 ^ k) x ≤ covered k (free k) x)
        → GoesUp b k a
        → Stops b (k + 1) a
        → (b' : Buddy) × (ram' : Ram) × (buddy_free b a size ram ≡ some (b', ram'))
          × Holds ram' b' (put free (k + 1) (a ∷ free (k + 1)))
          × ((x : ℕ)
              → inside k (a + 2 ^ k) x ≡ 1
              → cover 64 (put free (k + 1) (a ∷ free (k + 1))) x ≡ 2)
  unfolding buddy_free
  buddy_free_twice a size lo al held listed up stops =
      let k = log_2 size in
      let rounds : b.max_order + 1 - k ≡ suc (suc (b.max_order - k - 1)) =
        omega (arith, up.below_max) in
      let (b', ram', runs, holds) =
        free_loop_twice (b.max_order - k - 1) k a lo al (omega (arith, held a, inside_self k a)) up
          stops in
      (
        b',
        ram',
        ap (λ n. free_loop n b a k ram) rounds ∙ runs,
        holds,
        λ x. cover_twice k a x up.below_max (held x) (listed x),
      )
