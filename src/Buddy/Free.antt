-- ===== src/Buddy/Free.antt =====
-- `buddy_free` of lib/buddy.c on a block that goes back to its own free list.
use mint.Base.{
  ℕ, suc, ◌+◌, ◌-◌, ◌%◌, ◌^◌, ◌≤◌, ◌<◌, Bool, true, false, List, ◌∷◌, ◌≡◌, ◌⊎◌, inl, inr, refl, ◌∙◌,
  arith, some, ==_refl, ne→==-false,
}
use mint.Math.{log_2}
use mint.Bitset.{unset_bit, test_bit}
use mint.Bitset.Laws.{unset_bit-IsStored}
use mint.Stack.{Ram}
use mint.Buddy.{Buddy, with_bitset, push_block, free_loop, buddy_free, buddy_index, buddy_address}
use mint.Buddy.Cover.{Lists, put, inside, inside_self, buddy_index-ne}
use mint.Buddy.Invariant.{IsBuddy, in_bitset}
use mint.Buddy.Pages.{push_block-Keeps}
use mint.Buddy.Moves.{with_bitset-IsBuddy, push_block-IsBuddy}
use mint.Buddy.Split.{Leaves, held_in_zone}

-- At the order `k` the loop of `buddy_free` pushes the block: its buddy's bit is set, or no order is
-- larger.
pub record Stops (b : Buddy) (k a : ℕ) : Type 0 where
  pub in_use : Bool
  pub test : test_bit (b.orders k).bitset (buddy_index (buddy_address a k) k) ≡ some in_use
  pub last : (in_use ≡ true) ⊎ (k ≡ b.max_order)

-- At the order `k` it goes on: the buddy's bit is clear, and there is a larger order.
pub record GoesUp (b : Buddy) (k a : ℕ) : Type 0 where
  pub test : test_bit (b.orders k).bitset (buddy_index (buddy_address a k) k) ≡ some false
  pub below_max : k < b.max_order

module _ (left k a : ℕ) (b : Buddy) (ram : Ram) (bitset : List ℕ) (in_use : Bool)
    (unset : unset_bit (b.orders k).bitset (buddy_index a k) ≡ some bitset)
    (test : test_bit bitset (buddy_index (buddy_address a k) k) ≡ some in_use) where
  pub free_loop-push :
      (in_use ≡ true) ⊎ (k ≡ b.max_order)
      → free_loop (suc left) b a k ram ≡ some (push_block (with_bitset b k bitset) k a ram)
  unfolding free_loop
  free_loop-push (inl e) = rw (unset, test, e)
  free_loop-push (inr e) = rw (unset, test, ← e, ==_refl k) (ground arith)

  pub free_loop-up :
      in_use ≡ false
      → k < b.max_order
      → free_loop (suc left) b a k ram ≡ free_loop left (with_bitset b k bitset) a (k + 1) ram
  unfolding free_loop
  free_loop-up e h = rw (unset, test, e, ne→==-false k b.max_order (omega arith))

module _ {zone taken : ℕ → ℕ} {limit : ℕ} {ram : Ram} {b : Buddy} {free : Lists}
    (v : IsBuddy zone taken limit ram b free) where
  -- Clearing the bit of a byte of the zone leaves the test of the buddy as it was.
  pub unset_step :
      (k a : ℕ)
      → b.min_order ≤ k
      → k ≤ b.max_order
      → zone a ≡ 1
      → (bitset : List ℕ) × (unset_bit (b.orders k).bitset (buddy_index a k) ≡ some bitset)
        × IsBuddy zone taken limit ram (with_bitset b k bitset) free
        × (test_bit bitset (buddy_index (buddy_address a k) k)
            ≡ test_bit (b.orders k).bitset (buddy_index (buddy_address a k) k))
  unset_step k a lo hi z =
      let (bitset, runs, stored) =
        unset_bit-IsStored (b.orders k).bitset (buddy_index a k) (v.bytes k lo hi)
          (in_bitset v k a lo hi z) in
      (
        bitset,
        runs,
        with_bitset-IsBuddy v k bitset stored.bytes stored.same_length,
        stored.tests (buddy_index (buddy_address a k) k)
            ∙ rw (ne→==-false (buddy_index a k) _ (buddy_index-ne a k)),
      )

  -- In a valid allocator, an aligned block that is held, and whose buddy is in use or whose order is
  -- the largest, is given back whole: the call succeeds, the allocator is valid again, and the bytes
  -- taken are those taken before without the block.
  pub buddy_free-Leaves :
      (a size : ℕ) (kept : ℕ → ℕ)
      → b.min_order ≤ log_2 size
      → log_2 size ≤ b.max_order
      → a % 2 ^ log_2 size ≡ 0
      → ((x : ℕ) → taken x ≡ kept x + inside (log_2 size) a x)
      → Stops b (log_2 size) a
      → (b' : Buddy) × (ram' : Ram) × (buddy_free b a size ram ≡ some (b', ram'))
        × Leaves zone kept limit b ram b' ram'
  unfolding buddy_free push_block
  buddy_free-Leaves a size kept lo hi al t stops =
      let k = log_2 size in
      let rounds : b.max_order + 1 - k ≡ suc (b.max_order - k) = omega arith in
      let z = held_in_zone a v (omega (arith, t a, inside_self k a)) in
      let (bitset, unset, v', same) = unset_step k a lo hi z in
      let (b', ram') = push_block (with_bitset b k bitset) k a ram in
      (
        b',
        ram',
        rw rounds (
            free_loop-push (b.max_order - k) k a b ram bitset stops.in_use unset (same ∙ stops.test)
              stops.last),
        record {
          free = put free k (a ∷ free k);
          valid = push_block-IsBuddy v' k a kept lo hi al t;
          same_min = refl;
          same_max = refl;
          keeps = push_block-Keeps v' k a lo al (omega (arith, t a, inside_self k a));
        },
      )
