-- ===== src/Tests/BuddyTests.antt =====
-- lib/buddy.c on two blocks of 8 KiB.
use mathlib.Core.Option
use mathlib.Core.Option.{Option}
use native.Mathlib.Nat.{pow-le-pow_right}
use mint.Base.{
  ℕ, ◌+◌, ◌/◌, ◌^◌, ◌≤◌, ◌<◌, ◌≡◌, ◌⊎◌, inl, refl, true, [], ◌∷◌, some, none, ◌>>=◌, arith,
  if◌then◌else◌, ◌==◌,
}
use mint.Math.{log_2}
use mint.Bitset.{size_calc, set_bit, unset_bit, test_bit}
use mint.Stack.{Ram, stack_push, stack_pop, stack_init}
use mint.Stack.Links.{stack_init-IsStack}
use mint.Buddy.{
  Buddy, fresh_order, init_orders, buddy_init, push_block, pop_block, find_larger, mark, split,
  wanted_order, alloc_larger, alloc_exact, buddy_alloc, free_loop, buddy_free, free_chunks,
  free_orders, buddy_free_region,
}
use mint.Buddy.Cover.{put, inside, cover, cover-empty, covered-cons}
use mint.Buddy.Invariant.{IsBuddy}
use mint.Buddy.Moves.{push_block-IsBuddy}
use mint.Buddy.Split.{Leaves}
use mint.Buddy.Alloc.{IsRefused, IsServed, buddy_alloc_lem}
use mint.Buddy.Disjoint.{buddy_alloc_disjoint}
use mint.Buddy.Free.{buddy_free-Leaves}
use mint.Buddy.Double.{Holds, buddy_free_twice}
use mint.Buddy.Init.{IsTaken, buddy_init-IsBuddy}

abbrev blank : Ram
blank = record { word = λ _. 0; window = 0 }

-- Orders 12 and 13 with nothing free, and the bitset of order 12 as given.
abbrev empty : ℕ → Buddy
empty bits = record {
  base = 0;
  size = 0x4000;
  min_order = 12;
  max_order = 13;
  orders = λ k. record {
    free = record { size = 0; top = 0 };
    bitset = (if k == 12 then bits else 0xff) ∷ [];
  };
}

-- A zone of two blocks of 4 KiB, the halves of the 8 KiB at 0x2000.
abbrev zone : ℕ → ℕ
zone x = inside 12 0x2000 x + inside 12 0x3000 x

empty-IsBuddy : (bits : ℕ) → bits < 256 → IsBuddy zone zone 0x4000 blank (empty bits) (λ _. [])
empty-IsBuddy bits h = record {
  orders = omega arith;
  low = omega arith;
  once = λ x. ground arith;
  below = λ x p. ground arith;
  conserved = λ x. omega (arith, cover-empty 64 x);
  stacks = λ k lo hi. omega arith;
  unused = λ k p. refl;
  aligned = λ k. tt;
  bytes = λ k lo hi. (ground arith, tt);
  room = λ k lo hi. omega (arith, pow-le-pow_right {n = 2} (omega arith) {i = 12} {j = k} lo);
}

-- The allocator with the 8 KiB at 0x2000 free and the rest in use.
abbrev stocked : Buddy × Ram
stocked = push_block (empty 0xff) 13 0x2000 blank

stocked-IsBuddy : IsBuddy zone (λ _. 0) 0x4000 stocked.1 stocked.0 (put (λ _. []) 13 (0x2000 ∷ []))
stocked-IsBuddy =
    push_block-IsBuddy (empty-IsBuddy 0xff (omega arith)) 13 0x2000 (λ _. 0) (omega arith)
      (omega arith) (omega arith) (λ x. ground arith)

-- A request for 5000 bytes rounds up to the 8 KiB block, and a second one is refused.
alloc_runs : Option.map (λ t. t.0) (buddy_alloc stocked.0 5000 stocked.1) ≡ some 0x2000
unfolding buddy_alloc wanted_order log_2 push_block stack_push alloc_exact pop_block stack_pop mark
    set_bit
alloc_runs = refl

buddy_alloc_lem_example :
    let order = wanted_order stocked.0 0x1000 in
    (0x1000 ≤ 2 ^ order)
    × (IsRefused stocked-IsBuddy order (buddy_alloc stocked.0 0x1000 stocked.1)
        ⊎ IsServed stocked-IsBuddy order (buddy_alloc stocked.0 0x1000 stocked.1))
buddy_alloc_lem_example = buddy_alloc_lem stocked-IsBuddy 0x1000 (omega arith) (omega arith)

abbrev after : Option (ℕ × Buddy × Ram) → ℕ × Buddy × Ram
after none = (0, stocked.0, stocked.1)
after (some t) = t

-- The state after the first of two requests for 4 KiB, and after both.
first : ℕ × Buddy × Ram
first = after (buddy_alloc stocked.0 0x1000 stocked.1)

second : ℕ × Buddy × Ram
unfolding first
second = after (buddy_alloc first.1 0x1000 first.2)

halves_run : (first.0 ≡ 0x2000) × (second.0 ≡ 0x3000)
unfolding first second buddy_alloc wanted_order log_2 push_block stack_push alloc_exact alloc_larger
    find_larger split pop_block stack_pop mark set_bit
halves_run = (refl, refl)

buddy_alloc_disjoint_example :
    inside (wanted_order stocked.0 0x1000) first.0 0x2abc
      + inside (wanted_order first.1 0x1000) second.0 0x2abc
    ≤ 1
unfolding first second buddy_alloc wanted_order log_2 push_block stack_push alloc_exact alloc_larger
    find_larger split pop_block stack_pop mark set_bit
buddy_alloc_disjoint_example =
    buddy_alloc_disjoint stocked-IsBuddy 0x1000 first.0 0x1000 second.0 first.1 second.1 first.2
      second.2 (omega arith) (omega arith) (omega arith) (omega arith) refl refl (omega arith)
      (omega arith) 0x2abc

-- The allocator with the 8 KiB at 0x2000 in use.
buddy_free-Leaves_example :
    (b' : Buddy) × (ram' : Ram) × (buddy_free (empty 0xff) 0x2000 0x2000 blank ≡ some (b', ram'))
    × Leaves zone (λ _. 0) 0x4000 (empty 0xff) blank b' ram'
unfolding log_2 test_bit
buddy_free-Leaves_example =
    buddy_free-Leaves (empty-IsBuddy 0xff (omega arith)) 0x2000 0x2000 (λ _. 0) (omega arith)
      (omega arith) (omega arith) (λ x. ground arith)
      (record { in_use = true; test = refl; last = inl refl })

-- The upper 4 KiB of that block free, with its bit clear, and the lower 4 KiB in use.
abbrev half_free : Buddy × Ram
half_free = push_block (empty 0xf7) 12 0x3000 blank

half_free-IsBuddy :
    IsBuddy zone
      (λ x. inside 12 0x2000 x)
      0x4000
      half_free.1
      half_free.0
      (put (λ _. []) 12 (0x3000 ∷ []))
half_free-IsBuddy =
    push_block-IsBuddy (empty-IsBuddy 0xf7 (omega arith)) 12 0x3000 (λ x. inside 12 0x2000 x)
      (omega arith) (omega arith) (omega arith) (λ x. refl)

buddy_free_twice_example :
    (b' : Buddy) × (ram' : Ram) × (buddy_free half_free.0 0x2000 0x1000 half_free.1
      ≡ some (b', ram'))
    × Holds ram' b' (put (put (λ _. []) 12 (0x3000 ∷ [])) 13 (0x2000 ∷ []))
    × ((x : ℕ)
        → inside 12 0x3000 x ≡ 1
        → cover 64 (put (put (λ _. []) 12 (0x3000 ∷ [])) 13 (0x2000 ∷ [])) x ≡ 2)
unfolding log_2 push_block test_bit
buddy_free_twice_example =
    buddy_free_twice half_free-IsBuddy 0x2000 0x1000 (omega arith) (omega arith) (λ x. omega arith)
      (λ x. omega (arith, covered-cons 12 0x3000 [] x))
      (record { test = refl; below_max = omega arith })
      (record { in_use = true; test = refl; last = inl refl })

buddy_init-IsBuddy_example :
    (b : Buddy) × (buddy_init (λ _. fresh_order 0x4000 12) 0 0x4000 12 13 ≡ some b)
    × IsBuddy zone zone 0x4000 blank b (λ _. [])
    × ((k : ℕ) → 12 ≤ k → k ≤ 13 → IsTaken (b.orders k) (0x4000 / 2 ^ k))
unfolding fresh_order
buddy_init-IsBuddy_example =
    buddy_init-IsBuddy (λ _. fresh_order 0x4000 12) 0 0x4000 12 13 0x4000 zone blank (omega arith)
      (omega arith) (omega arith) (omega arith) (omega arith) (omega arith) (omega arith)
      (λ x. ground arith) (λ x p. ground arith) (stack_init-IsStack blank)

-- From `buddy_init` on: the block is given to the allocator, its halves are taken and freed, and then
-- 8 KiB and 4 KiB are taken again. The second block lies in the first.
session : Option (ℕ × ℕ)
session = do
  b ← buddy_init (λ _. fresh_order 0x4000 12) 0 0x4000 12 13
  (b₁, m₁) ← buddy_free_region 10 b 0x2000 0x2000 blank
  (a, b₂, m₂) ← buddy_alloc b₁ 0x1000 m₁
  (c, b₃, m₃) ← buddy_alloc b₂ 0x1000 m₂
  (b₄, m₄) ← buddy_free b₃ c 0x1000 m₃
  (b₅, m₅) ← buddy_free b₄ a 0x1000 m₄
  (d, b₆, m₆) ← buddy_alloc b₅ 0x2000 m₅
  (e, b₇, m₇) ← buddy_alloc b₆ 0x1000 m₆
  some (d, e)

session_overlap : session ≡ some (0x2000, 0x3000)
unfolding session buddy_init init_orders fresh_order size_calc stack_init buddy_free_region
    free_orders free_chunks buddy_free free_loop unset_bit test_bit buddy_alloc wanted_order log_2
    push_block stack_push alloc_exact alloc_larger find_larger split pop_block stack_pop mark
    set_bit
session_overlap = refl
