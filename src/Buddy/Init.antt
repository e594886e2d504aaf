-- ===== src/Buddy/Init.antt =====
-- `buddy_init` of lib/buddy.c.
use native.Mathlib.Nat.{
  div-mul_cancel, dvd_of_mod-eq-zero, div-le_self, le-div_iff_mul-le, mul-le-mul_right,
}
use native.Mathlib.Decide.{ℕ_discrete}
use mathlib.Core.Path.{subst}
use mint.Base.{
  ℕ, zero, suc, ◌+◌, ◌-◌, ◌*◌, ◌/◌, ◌%◌, ◌^◌, ◌≤◌, ◌<◌, ◌&&◌, [], ◌≡◌, refl, ap, arith, some,
  length, get_elem?, replicate, true, all_below, all_below_sound, length-replicate, ltb, leb, ◌==◌,
  ne→==-false, if◌then◌else◌,
}
use mint.Base.Bits.{pow_pos}
use mint.Bitset.{full, size_calc, test_byte, test_bit}
use mint.Bitset.Laws.{IsBytes, size_calc_lem}
use mint.Stack.{Ram, stack_init}
use mint.Stack.Links.{IsStack, stack_init-IsStack}
use mint.Buddy.{Buddy, Order, fresh_order, init_orders, buddy_init}
use mint.Buddy.Cover.{cover-empty, aligned_below}
use mint.Buddy.Invariant.{IsBuddy}

-- The loop sets up the orders of its range, and keeps the rest.
init_orders_lem :
    (left i : ℕ) (b : Buddy) (j : ℕ)
    → (init_orders left i b).orders j
      ≡ (if leb i j && ltb j (i + left) then fresh_order b.size j else b.orders j)
unfolding init_orders
init_orders_lem zero i b j = ground arith
init_orders_lem (suc left) i b j =
    rw
      (init_orders_lem left (i + 1)
        (record b { orders = λ j. if i == j then fresh_order b.size i else b.orders j }) j)
      (ground (arith, ap (fresh_order b.size)))

init_orders_fields :
    (left i : ℕ) (b : Buddy)
    → ((init_orders left i b).min_order ≡ b.min_order)
      × ((init_orders left i b).max_order ≡ b.max_order)
unfolding init_orders
init_orders_fields zero i b = (refl, refl)
init_orders_fields (suc left) i b = init_orders_fields left (i + 1) _

replicate-IsBytes : (n : ℕ) → IsBytes (replicate n full)
replicate-IsBytes zero = tt
replicate-IsBytes (suc n) = (omega arith, replicate-IsBytes n)

-- The bitset of an order has a bit for each block below `limit`.
fresh_room :
    (size limit k max : ℕ)
    → limit ≤ size
    → size < 2 ^ 52
    → k ≤ max
    → limit % 2 ^ max ≡ 0
    → limit ≤ 8 * length (fresh_order size k).bitset * 2 ^ k
unfolding fresh_order
fresh_room size limit k max le small h al =
    let n = size / 2 ^ k in
    let whole : limit / 2 ^ k * 2 ^ k ≡ limit =
      div-mul_cancel (2 ^ k) (dvd_of_mod-eq-zero (2 ^ k) (aligned_below k max limit h al)) in
    let pieces : limit / 2 ^ k ≤ n = (le-div_iff_mul-le (pow_pos k)).1 (rw whole le) in
    let bits : n ≤ size_calc n * 8 = size_calc_lem n (omega (arith, div-le_self size (2 ^ k))) in
    let enough : limit / 2 ^ k ≤ 8 * size_calc n = omega arith in
    rw (length-replicate, ← whole) (mul-le-mul_right (2 ^ k) enough)

-- With no argument 0, `buddy_init` succeeds, and the orders of its range are fresh.
pub buddy_init-fresh :
    (raw : ℕ → Order) (base size min_order max_order : ℕ)
    → 0 < size
    → 0 < min_order
    → 0 < max_order
    → (b : Buddy) × (buddy_init raw base size min_order max_order ≡ some b)
      × (b.max_order ≡ max_order)
      × ((k : ℕ) → min_order ≤ k → k ≤ max_order → b.orders k ≡ fresh_order size k)
unfolding buddy_init
buddy_init-fresh raw base size min_order max_order h h' h'' =
    let start : Buddy = record {
      base = base;
      size = size;
      min_order = min_order;
      max_order = max_order;
      orders = raw;
    } in
    let left = max_order + 1 - min_order in
    (
      init_orders left min_order start,
      rw (
        ne→==-false size 0 (omega arith),
        ne→==-false min_order 0 (omega arith),
        ne→==-false max_order 0 (omega arith),
      ),
      (init_orders_fields left min_order start).1,
      λ k lo hi. rw (init_orders_lem left min_order start k) (ground arith),
    )

get_elem?-replicate : (n i v : ℕ) → i < n → get_elem? (replicate n v) i ≡ some v
get_elem?-replicate zero i v lt = absurd (omega arith)
get_elem?-replicate (suc n) zero v lt = refl
get_elem?-replicate (suc n) (suc i) v lt = get_elem?-replicate n i v (omega arith)

full_table : all_below 8 (λ k. test_byte full k) ≡ true
unfolding all_below test_byte
full_table = refl

-- A bitset of full bytes has every bit that there is room for.
test_bit-full :
    (n i : ℕ) → n + 7 < 2 ^ 64 → i < n → test_bit (replicate (size_calc n) full) i ≡ some true
unfolding test_bit
test_bit-full n i small lt =
    let room = size_calc_lem n small in
    rw (get_elem?-replicate (size_calc n) (i / 8) full (omega arith))
      (ap some (all_below_sound 8 _ full_table (i % 8) (omega arith)))

-- An order without a free block, and with the bit of each of `n` blocks set.
pub record IsTaken (order : Order) (n : ℕ) : Type 0 where
  pub empty : order.free ≡ stack_init
  pub marked : (i : ℕ) → i < n → test_bit order.bitset i ≡ some true

fresh-IsTaken : (size k : ℕ) → size < 2 ^ 52 → IsTaken (fresh_order size k) (size / 2 ^ k)
unfolding fresh_order
fresh-IsTaken size k small = record {
  empty = refl;
  marked = λ i lt. test_bit-full (size / 2 ^ k) i (omega (arith, div-le_self size (2 ^ k))) lt;
}

-- With orders from 12 to at most 30 and a positive size below 2^52, `buddy_init` leaves no free block in any
-- of its orders, and the bit of each block of the size is set. The allocator is valid, with all bytes taken, for
-- each zone of addresses below a limit that is at most the size and a multiple of the largest block,
-- provided that the order above the largest, which the loop leaves as `kmalloc` gave it, is an empty
-- stack.
pub buddy_init-IsBuddy :
    (raw : ℕ → Order) (base size min_order max_order limit : ℕ) (zone : ℕ → ℕ) (ram : Ram)
    → 12 ≤ min_order
    → min_order ≤ max_order
    → max_order ≤ 30
    → 0 < size
    → size < 2 ^ 52
    → limit ≤ size
    → limit % 2 ^ max_order ≡ 0
    → ((x : ℕ) → zone x ≤ 1)
    → ((x : ℕ) → 0 < zone x → x < limit)
    → IsStack ram (raw (max_order + 1)).free []
    → (b : Buddy) × (buddy_init raw base size min_order max_order ≡ some b)
      × IsBuddy zone zone limit ram b (λ _. [])
      × ((k : ℕ) → min_order ≤ k → k ≤ max_order → IsTaken (b.orders k) (size / 2 ^ k))
unfolding buddy_init fresh_order
buddy_init-IsBuddy raw base size min_order max_order limit zone ram page ordered small some_size
      fits le al once below slack =
    (b, starts, valid, λ k lo hi. rw (set_up k lo hi) (fresh-IsTaken size k fits))
  where
    start : Buddy
    start = record {
      base = base;
      size = size;
      min_order = min_order;
      max_order = max_order;
      orders = raw;
    }

    b : Buddy
    b = init_orders (max_order + 1 - min_order) min_order start

    starts : buddy_init raw base size min_order max_order ≡ some b
    starts = rw (
      ne→==-false size 0 (omega arith),
      ne→==-false min_order 0 (omega arith),
      ne→==-false max_order 0 (omega arith),
    )

    fields : (b.min_order ≡ min_order) × (b.max_order ≡ max_order)
    fields = init_orders_fields (max_order + 1 - min_order) min_order start

    set_up : (k : ℕ) → min_order ≤ k → k ≤ max_order → b.orders k ≡ fresh_order size k
    set_up k lo hi =
        rw (init_orders_lem (max_order + 1 - min_order) min_order start k) (ground arith)

    above : b.orders (max_order + 1) ≡ raw (max_order + 1)
    above =
        rw (init_orders_lem (max_order + 1 - min_order) min_order start (max_order + 1))
          (ground arith)

    -- The orders that the invariant speaks of, in terms of the arguments.
    lower : (k : ℕ) → b.min_order ≤ k → min_order ≤ k
    lower k = subst (λ m. m ≤ k) fields.0

    upper : (k : ℕ) → k ≤ b.max_order → k ≤ max_order
    upper k = subst (λ m. k ≤ m) fields.1

    stack_at : (k : ℕ) → min_order ≤ k → k ≤ max_order + 1 → IsStack ram (b.orders k).free []
    stack_at k lo hi = elim (ℕ_discrete k (max_order + 1)) [
      | yes e ↦ rw (e, above) slack
      | no ne ↦ rw (set_up k lo (omega arith)) (stack_init-IsStack ram)
    ]

    valid : IsBuddy zone zone limit ram b (λ _. [])
    valid = record {
      orders = record {
        page = rw fields.0 page;
        ordered = rw (fields.0, fields.1) ordered;
        small = rw fields.1 small;
      };
      low = omega arith;
      once = once;
      below = below;
      conserved = λ x. rw (cover-empty 64 x) (omega arith);
      stacks = λ k lo hi. stack_at k (lower k lo) (subst (λ m. k ≤ m + 1) fields.1 hi);
      unused = λ k h. refl;
      aligned = λ k. tt;
      bytes = λ k lo hi.
          rw (set_up k (lower k lo) (upper k hi)) (replicate-IsBytes (size_calc (size / 2 ^ k)));
      room = λ k lo hi.
          rw (set_up k (lower k lo) (upper k hi))
            (fresh_room size limit k max_order le fits (upper k hi) al);
    }
