-- ===== src/Buddy.antt =====
-- lib/buddy.c and include/lib/buddy.h: the buddy allocator. Each order keeps a stack of free blocks
-- and a bitset in which a clear bit means that the block may be joined with its buddy.
-- A call takes and returns the allocator and the memory that holds the stacks. `none` is a fault:
-- an access past the end of a bitset. The `NULL` allocator, which `buddy_alloc` refuses and the others
-- dereference, is the `none` of `Physical.alloc_from` and its neighbours.
pub mod Cover
pub mod Invariant
pub mod Pages
pub mod Moves
pub mod Init
pub mod Split
pub mod Alloc
pub mod Disjoint
pub mod Free
pub mod Double
use mint.Base.{
  ℕ, zero, suc, ◌+◌, ◌-◌, ◌*◌, ◌/◌, ◌%◌, ◌^◌, ◌≤◌, min, max, bit_xor, Bool, true, false, not, ◌||◌,
  List, Option, none, some, replicate, ◌>>=◌, ltb, leb, ◌==◌, if◌then◌else◌,
}
use mint.Math.{u64, pow_2, log_2}
use mint.Bitset.{full, size_calc, set_bit, unset_bit, test_bit}
use mint.Stack.{Ram, Stack, stack_init, stack_push, stack_pop}

-- BUDDY_ADDRESS and BUDDY_INDEX
abbrev pub buddy_address : ℕ → ℕ → ℕ
buddy_address x order = bit_xor x (pow_2 order)

abbrev pub buddy_index : ℕ → ℕ → ℕ
buddy_index x order = x / pow_2 order

-- `struct buddy_order`
pub record Order : Type 0 where
  pub free : Stack
  pub bitset : List ℕ

-- `struct buddy`. The array of 64 orders is a function of the index.
pub record Buddy : Type 0 where
  pub base : ℕ
  pub size : ℕ
  pub min_order : ℕ
  pub max_order : ℕ
  pub orders : ℕ → Order

abbrev pub with_free : Buddy → ℕ → Stack → Buddy
with_free b order stack = record b {
  orders = λ i. if order == i then record (b.orders i) { free = stack } else b.orders i;
}

abbrev pub with_bitset : Buddy → ℕ → List ℕ → Buddy
with_bitset b order bitset = record b {
  orders = λ i. if order == i then record (b.orders i) { bitset = bitset } else b.orders i;
}

-- An order as `buddy_init` sets it up: no free block, and every bit set. `kmalloc` is taken to have
-- the space, since its result is not tested.
unfoldable pub fresh_order : ℕ → ℕ → Order
fresh_order size i = record {
  free = stack_init;
  bitset = replicate (size_calc (size / pow_2 i)) full;
}

-- The loop of `buddy_init` from the order `i`, with the rounds left.
unfoldable pub init_orders : ℕ → ℕ → Buddy → Buddy
init_orders zero i b = b
init_orders (suc left) i b =
    init_orders left (i + 1)
      (record b { orders = λ j. if i == j then fresh_order b.size i else b.orders j })

-- `raw` is what the fresh block of `kmalloc` holds. `none` is the `NULL` of a refused argument.
unfoldable pub buddy_init : (ℕ → Order) → ℕ → ℕ → ℕ → ℕ → Option Buddy
buddy_init raw base size min_order max_order =
    if size == 0 || min_order == 0 || max_order == 0
    then none
    else some (
        init_orders (max_order + 1 - min_order) min_order (record {
          base = base;
          size = size;
          min_order = min_order;
          max_order = max_order;
          orders = raw;
        }))

-- `while (order++ <= max_order)`, with the rounds left: the first larger order with a free block.
unfoldable pub find_larger : ℕ → Buddy → ℕ → Option ℕ
find_larger zero b order = none
find_larger (suc left) b order =
    let rest = find_larger left b (order + 1) in
    if (b.orders (order + 1)).free.size == 0 then rest else some (order + 1)

-- `bitset_set` of the block at `addr` in the bitset of `order`.
unfoldable pub mark : Buddy → ℕ → ℕ → Option Buddy
mark b order addr = set_bit (b.orders order).bitset (buddy_index addr order) >>= λ bitset.
    some (with_bitset b order bitset)

unfoldable pub push_block : Buddy → ℕ → ℕ → Ram → Buddy × Ram
push_block b order addr ram =
    let (stack, ram') = stack_push (b.orders order).free addr ram in (with_free b order stack, ram')

-- The value popped, and what the pop leaves.
unfoldable pub pop_block : Buddy → ℕ → Ram → ℕ × Buddy × Ram
pop_block b order ram =
    let (addr, stack, ram') = stack_pop (b.orders order).free ram in
    (addr, with_free b order stack, ram')

-- `for (; order > original_order; order--)`: `left` is `order - original_order`.
unfoldable pub split : ℕ → Buddy → ℕ → ℕ → Ram → Option (Buddy × Ram)
split zero b original addr ram = some (b, ram)
split (suc left) b original addr ram = do
  b₁ ← mark b (original + suc left) addr
  b₂ ← mark b₁ (original + left) addr
  let (b₃, ram') = push_block b₂ (original + left) (buddy_address addr (original + left)) ram
  split left b₃ original addr ram'

-- The order that `buddy_alloc` serves a request from.
unfoldable pub wanted_order : Buddy → ℕ → ℕ
wanted_order b size = if ltb (log_2 size) b.min_order then b.min_order else log_2 size

-- `!free.size` at the order itself: take from a larger one and split.
unfoldable pub alloc_larger : Buddy → ℕ → Ram → Option (ℕ × Buddy × Ram)
alloc_larger b order ram = elim (find_larger (b.max_order + 1 - order) b order) [
  | none ↦ some (0, b, ram)
  | some found ↦
      let (addr, b', ram') = pop_block b found ram in
      split (found - order) b' order addr ram' >>= λ (b'', ram''). some (addr, b'', ram'')
]

unfoldable pub alloc_exact : Buddy → ℕ → Ram → Option (ℕ × Buddy × Ram)
alloc_exact b order ram =
    let (addr, b', ram') = pop_block b order ram in
    mark b' order addr >>= λ b''. some (addr, b'', ram')

-- The address returned, 0 for `NULL`, with the allocator and the memory after the call.
unfoldable pub buddy_alloc : Buddy → ℕ → Ram → Option (ℕ × Buddy × Ram)
buddy_alloc b size ram =
    let order = wanted_order b size in
    if ltb b.max_order order
    then some (0, b, ram)
    else if (b.orders order).free.size == 0
    then alloc_larger b order ram
    else alloc_exact b order ram

-- `for (; order <= max_order; order++)`, with the rounds left.
unfoldable pub free_loop : ℕ → Buddy → ℕ → ℕ → Ram → Option (Buddy × Ram)
free_loop zero b addr order ram = some (b, ram)
free_loop (suc left) b addr order ram = do
  bitset ← unset_bit (b.orders order).bitset (buddy_index addr order)
  in_use ← test_bit bitset (buddy_index (buddy_address addr order) order)
  let b' = with_bitset b order bitset
  let rest = free_loop left b' addr (order + 1) ram
  if in_use || order == b.max_order then some (push_block b' order addr ram) else rest

unfoldable pub buddy_free : Buddy → ℕ → ℕ → Ram → Option (Buddy × Ram)
buddy_free b addr size ram = free_loop (b.max_order + 1 - log_2 size) b addr (log_2 size) ram

-- `while (addr + chunk <= end)`, on fuel: the address that is reached, and the state. `none` is also
-- what the loop gives when the fuel runs out.
unfoldable pub free_chunks : ℕ → Buddy → ℕ → ℕ → ℕ → Ram → Option (ℕ × Buddy × Ram)
free_chunks zero b addr chunk end ram = none
free_chunks (suc fuel) b addr chunk end ram =
    let rest = buddy_free b addr chunk ram >>= λ (b', ram').
    free_chunks fuel b' (u64 (addr + chunk)) chunk end ram' in
    if leb (u64 (addr + chunk)) end then rest else some (addr, b, ram)

-- `for (order = max_order; order >= min_order; order--)`, with the rounds left.
unfoldable pub free_orders : ℕ → ℕ → Buddy → ℕ → ℕ → ℕ → Ram → Option (Buddy × Ram)
free_orders fuel zero b addr order end ram = some (b, ram)
free_orders fuel (suc left) b addr order end ram =
    free_chunks fuel b addr (pow_2 order) end ram >>= λ (addr', b', ram').
    free_orders fuel left b' addr' (order - 1) end ram'

unfoldable pub buddy_free_region : ℕ → Buddy → ℕ → ℕ → Ram → Option (Buddy × Ram)
buddy_free_region fuel b start size ram =
    free_orders fuel (b.max_order + 1 - b.min_order) b start b.max_order (u64 (start + size)) ram
