-- ===== src/Tests/PhysicalTests.antt =====
-- mm/physical.c with the boundary at 0x5000: 8 KiB at 0x2000 below it, and 8 KiB at 0x6000 above it.
use mint.Base.{
  ℕ, ◌+◌, ◌%◌, ◌^◌, ◌≤◌, ◌≡◌, ◌⊎◌, inl, refl, true, [], ◌∷◌, Option, none, some, ◌>>=◌, arith,
}
use native.Mathlib.Nat.{pow-le-pow_right}
use mint.Math.{log_2}
use mint.Bitset.{size_calc, set_bit, unset_bit, test_bit}
use mint.Stack.{Ram, stack_init, stack_push, stack_pop}
use mint.Buddy.{
  Buddy, fresh_order, init_orders, buddy_init, push_block, pop_block, find_larger, mark, split,
  wanted_order, alloc_larger, alloc_exact, buddy_alloc, free_loop, buddy_free, free_chunks,
  free_orders, buddy_free_region,
}
use mint.Buddy.Cover.{Lists, put, inside, cover-empty}
use mint.Buddy.Invariant.{IsBuddy}
use mint.Buddy.Moves.{push_block-IsBuddy}
use mint.Physical.Bounds.{physical_free-past}
use mint.Physical.{
  alloc_from, free_across, free_region_to, Physical, physical_init, physical_alloc, physical_free,
  physical_free_region,
}
use mint.Physical.Regions.{Share, take_block, IsPhysical}
use mint.Physical.Alloc.{IsDenied, physical_alloc-normal, physical_alloc-dma}
use mint.Physical.Free.{physical_free-normal, physical_free-dma}

abbrev blank : Ram
blank = record { word = λ _. 0; window = 0 }

-- Orders 12 and 13 with nothing free.
abbrev empty : Buddy
empty = record {
  base = 0;
  size = 0x8000;
  min_order = 12;
  max_order = 13;
  orders = λ k. record { free = record { size = 0; top = 0 }; bitset = 0xff ∷ [] };
}

abbrev zone : ℕ → ℕ → ℕ
zone start x = inside 12 start x + inside 12 (start + 0x1000) x

empty-IsBuddy :
    (start : ℕ) (ram : Ram)
    → start + 0x2000 ≤ 0x8000
    → IsBuddy (zone start) (zone start) 0x8000 ram empty (λ _. [])
empty-IsBuddy start ram h = record {
  orders = omega arith;
  low = omega arith;
  once = λ x. ground arith;
  below = λ x p. ground arith;
  conserved = λ x. omega (arith, cover-empty 64 x);
  stacks = λ k lo hi. omega arith;
  unused = λ k p. refl;
  aligned = λ k. tt;
  bytes = λ k lo hi. (omega arith, tt);
  room = λ k lo hi. omega (arith, pow-le-pow_right {n = 2} (omega arith) {i = 12} {j = k} lo);
}

-- The allocator with the 8 KiB from `start` free.
abbrev stocked : ℕ → Buddy × Ram
stocked start = push_block empty 13 start blank

stocked-IsBuddy :
    (start : ℕ)
    → start % 0x2000 ≡ 0
    → start + 0x2000 ≤ 0x8000
    → IsBuddy
        (zone start)
        (λ _. 0)
        0x8000
        (stocked start).1
        (stocked start).0
        (put (λ _. []) 13 (start ∷ []))
stocked-IsBuddy start al h =
    push_block-IsBuddy (empty-IsBuddy start blank h) 13 start (λ _. 0) (omega arith) (omega arith)
      (omega arith) (λ x. ground arith)

abbrev both : Buddy → Buddy → Physical
both b b' = record {
  dma = record { base = 0; size = 0x5000; buddy = some b };
  normal = record { base = 0x5000; size = 0x8000; buddy = some b' };
}

abbrev share : ℕ → (ℕ → ℕ) → Share
share start taken = record { zone = zone start; taken = taken; limit = 0x8000 }

-- Two such allocators side by side.
parts :
    {ram : Ram} {b b' : Buddy} {t t' : ℕ → ℕ} {free free' : Lists}
    → IsBuddy (zone 0x2000) t 0x8000 ram b free
    → IsBuddy (zone 0x6000) t' 0x8000 ram b' free'
    → IsPhysical (share 0x2000 t) (share 0x6000 t') ram (both b b')
parts {b} {b'} {free} {free'} v v' = record {
  dma = record { allocator = b; present = refl; free = free; valid = v };
  normal = record { allocator = b'; present = refl; free = free'; valid = v' };
  below = λ x h. ground arith;
  above = λ x h. ground arith;
}

upper_free :
    IsPhysical
      (share 0x2000 (zone 0x2000))
      (share 0x6000 (λ _. 0))
      (stocked 0x6000).1
      (both empty (stocked 0x6000).0)
upper_free =
    parts (empty-IsBuddy 0x2000 (stocked 0x6000).1 (omega arith))
      (stocked-IsBuddy 0x6000 (omega arith) (omega arith))

lower_free :
    IsPhysical
      (share 0x2000 (λ _. 0))
      (share 0x6000 (zone 0x6000))
      (stocked 0x2000).1
      (both (stocked 0x2000).0 empty)
lower_free =
    parts (stocked-IsBuddy 0x2000 (omega arith) (omega arith))
      (empty-IsBuddy 0x6000 (stocked 0x2000).1 (omega arith))

none_free :
    IsPhysical (share 0x2000 (zone 0x2000)) (share 0x6000 (zone 0x6000)) blank (both empty empty)
none_free =
    parts (empty-IsBuddy 0x2000 blank (omega arith)) (empty-IsBuddy 0x6000 blank (omega arith))

physical_alloc-normal_example :
    let order = wanted_order (stocked 0x6000).0 0x1000 in
    let result = physical_alloc (both empty (stocked 0x6000).0) 0x1000 0 (stocked 0x6000).1 in
    (0x1000 ≤ 2 ^ order)
    × (IsDenied upper_free upper_free.normal.free order result
        ⊎ ((a : ℕ) × (p' : Physical) × (ram' : Ram) × (result ≡ some (a, p', ram'))
            × (a % 2 ^ order ≡ 0)
            × IsPhysical
                (share 0x2000 (zone 0x2000))
                (take_block (share 0x6000 (λ _. 0)) order a)
                ram'
                p'))
unfolding push_block upper_free parts
physical_alloc-normal_example =
    physical_alloc-normal upper_free 0x1000 0 (omega arith) (omega arith) refl

physical_alloc-dma_example :
    let order = wanted_order (stocked 0x2000).0 0x1000 in
    let result = physical_alloc (both (stocked 0x2000).0 empty) 0x1000 1 (stocked 0x2000).1 in
    (0x1000 ≤ 2 ^ order)
    × (IsDenied lower_free lower_free.dma.free order result
        ⊎ ((a : ℕ) × (p' : Physical) × (ram' : Ram) × (result ≡ some (a, p', ram'))
            × (a % 2 ^ order ≡ 0)
            × IsPhysical
                (take_block (share 0x2000 (λ _. 0)) order a)
                (share 0x6000 (zone 0x6000))
                ram'
                p'))
unfolding push_block lower_free parts
physical_alloc-dma_example =
    physical_alloc-dma lower_free 0x1000 1 (omega arith) (omega arith) (omega arith)

physical_free-normal_example :
    (p' : Physical) × (ram' : Ram) × (physical_free (both empty empty) 0x6000 0x2000 blank
      ≡ some (p', ram'))
    × IsPhysical (share 0x2000 (zone 0x2000)) (share 0x6000 (λ _. 0)) ram' p'
unfolding log_2 test_bit none_free parts
physical_free-normal_example =
    physical_free-normal none_free 0x6000 0x2000 (λ _. 0) (omega arith) (omega arith) (omega arith)
      (λ x. ground arith) (record { in_use = true; test = refl; last = inl refl })

physical_free-dma_example :
    (p' : Physical) × (ram' : Ram) × (physical_free (both empty empty) 0x2000 0x2000 blank
      ≡ some (p', ram'))
    × IsPhysical (share 0x2000 (λ _. 0)) (share 0x6000 (zone 0x6000)) ram' p'
unfolding log_2 test_bit none_free parts
physical_free-dma_example =
    physical_free-dma none_free 0x2000 0x2000 (λ _. 0) (omega arith) (omega arith) (omega arith)
      (λ x. ground arith) (record { in_use = true; test = refl; last = inl refl })

-- `physical_init` with 0xc000 bytes and the boundary at 0x5000, and then the whole memory freed: both
-- regions serve from their own bytes, and the last page of the second one is past its bitsets.
fresh : Physical
fresh = physical_init (λ _. fresh_order 1 12) (λ _. fresh_order 1 12) 0xc000 0x5000

started : Option (ℕ × ℕ)
unfolding fresh
started = do
  (p, ram) ← physical_free_region 20 fresh 0x1000 0x5000 blank
  (a, p₁, ram₁) ← physical_alloc p 0x1000 1 ram
  (c, p₂, ram₂) ← physical_alloc p₁ 0x1000 0 ram₁
  some (a, c)

started_run : started ≡ some (0x1000, 0x5000)
unfolding started fresh physical_init physical_free_region free_across free_region_to alloc_from
    physical_alloc buddy_init init_orders fresh_order size_calc stack_init buddy_free_region
    free_orders free_chunks buddy_free free_loop unset_bit test_bit buddy_alloc wanted_order log_2
    push_block stack_push alloc_exact alloc_larger find_larger split pop_block stack_pop mark
    set_bit
started_run = refl

physical_free-past_example : physical_free fresh 0xb000 0x1000 blank ≡ none
unfolding fresh size_calc
physical_free-past_example =
    physical_free-past (λ _. fresh_order 1 12) (λ _. fresh_order 1 12) 0xc000 0x5000 0xb000 blank
      (omega arith) (omega arith) (omega arith) (omega arith) (omega arith)
