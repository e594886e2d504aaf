-- ===== src/Physical/Bounds.antt =====
-- The bitsets of the upper region of mm/physical.c, and the numbers of its pages.
use mint.Base.{
  ℕ, ◌+◌, ◌-◌, ◌^◌, ◌/◌, ◌%◌, ◌≤◌, ◌<◌, none, length, length-replicate, ◌≡◌, refl, arith,
  not_lt→ltb,
}
use mint.Math.{log_2}
use mint.Bitset.{size_calc, unset_bit}
use mint.Bitset.Laws.{past_array}
use mint.Stack.{Ram}
use mint.Buddy.{Buddy, Order, fresh_order, buddy_free, free_loop}
use mint.Buddy.Init.{buddy_init-fresh}
use mint.Physical.{physical_init, free_to, physical_free}

-- A page of 4 KiB past the bitset of order 12 cannot be freed: the first store is a fault.
buddy_free-past :
    (b : Buddy) (size a : ℕ) (ram : Ram)
    → b.max_order ≡ 28
    → b.orders 12 ≡ fresh_order size 12
    → size_calc (size / 2 ^ 12) ≤ a / 2 ^ 12 / 8
    → buddy_free b a 0x1000 ram ≡ none
unfolding buddy_free free_loop log_2 fresh_order
buddy_free-past b size a ram max same past =
    let short : length (b.orders 12).bitset ≤ a / 2 ^ 12 / 8 = rw (same, length-replicate) past in
    let fault : unset_bit (b.orders 12).bitset (a / 2 ^ 12) ≡ none =
      (past_array (b.orders 12).bitset (a / 2 ^ 12) short).1 in
    rw (max, fault) refl

-- After `physical_init`, a page of the upper region whose number in the whole memory is past the
-- bytes of a bitset for the region's own pages cannot be freed: `physical_free` stores out of bounds.
pub physical_free-past :
    (raw raw' : ℕ → Order) (size dma_boundary a : ℕ) (ram : Ram)
    → dma_boundary < size
    → size < 2 ^ 64
    → dma_boundary ≤ a
    → a < size
    → size_calc ((size - dma_boundary) / 2 ^ 12) ≤ a / 2 ^ 12 / 8
    → physical_free (physical_init raw raw' size dma_boundary) a 0x1000 ram ≡ none
unfolding physical_init physical_free free_to
physical_free-past raw raw' size dma_boundary a ram lt nowrap above inside past =
    let e : (size + (2 ^ 64 - dma_boundary)) % 2 ^ 64 ≡ size - dma_boundary = omega arith in
    let (b, starts, max, set_up) =
      buddy_init-fresh raw' dma_boundary (size - dma_boundary) 12 28 (omega arith) (omega arith)
        (omega arith) in
    let fault =
      buddy_free-past b (size - dma_boundary) a ram max (set_up 12 (omega arith) (omega arith))
        past in
    rw (not_lt→ltb a dma_boundary (omega arith), e, starts, fault) refl
