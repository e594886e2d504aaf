-- ===== src/Buddy/Invariant.antt =====
-- What holds of a `struct buddy` of lib/buddy.c between calls, and the three primitive moves: a mark
-- in a bitset, a push and a pop of a block.
use native.Mathlib.Nat.{div-lt_iff_lt-mul, lt_of_lt_of_le}
use native.Mathlib.Decide.{dec_lt}
use mint.Base.{
  ℕ, ◌+◌, ◌*◌, ◌/◌, ◌%◌, ◌^◌, ◌≤◌, ◌<◌, List, [], ◌∷◌, ◌≡◌, ◌≢◌, ◌⊎◌, inl, inr, ap, arith, length,
}
use mint.Base.Bits.{pow_pos}
use mint.Bitset.Laws.{IsBytes, InRange}
use mint.Stack.{Ram, frame}
use mint.Stack.Links.{IsStack, IsFresh}
use mint.Buddy.{Buddy, buddy_index}
use mint.Buddy.Cover.{
  Lists, covered, cover, covered-cons, covered-le-cover, inside_self, aligned_page,
}

-- Every block of the list starts at a multiple of its size.
abbrev pub IsAligned : ℕ → List ℕ → Type 0
IsAligned k [] = Unit {0}
IsAligned k (a ∷ rest) = (a % 2 ^ k ≡ 0) × IsAligned k rest

-- The orders are those that the page stacks and `1 << order` allow.
pub record HasOrders (b : Buddy) : Type 0 where
  pub page : 12 ≤ b.min_order
  pub ordered : b.min_order ≤ b.max_order
  pub small : b.max_order ≤ 30

-- `zone x` is 1 for the bytes that the allocator was given, all below `limit`, and 0 for the others;
-- `taken x` is 1 for those that callers hold. The free lists `free` hold the rest, each byte once.
pub record IsBuddy (zone taken : ℕ → ℕ) (limit : ℕ) (ram : Ram) (b : Buddy) (free : Lists)
    : Type 0 where
  pub orders : HasOrders b
  pub low : limit ≤ 2 ^ 52
  pub once : (x : ℕ) → zone x ≤ 1
  pub below : (x : ℕ) → 0 < zone x → x < limit
  pub conserved : (x : ℕ) → cover 64 free x + taken x ≡ zone x
  pub stacks :
      (k : ℕ) → b.min_order ≤ k → k ≤ b.max_order + 1 → IsStack ram (b.orders k).free (free k)
  pub unused : (k : ℕ) → (k < b.min_order) ⊎ (b.max_order < k) → free k ≡ []
  pub aligned : (k : ℕ) → IsAligned k (free k)
  pub bytes : (k : ℕ) → b.min_order ≤ k → k ≤ b.max_order → IsBytes (b.orders k).bitset
  pub room :
      (k : ℕ) → b.min_order ≤ k → k ≤ b.max_order → limit ≤ 8 * length (b.orders k).bitset * 2 ^ k

-- Pages in different frames: two page-aligned addresses below 2 ^ 52.
pub frame-injective :
    (a p : ℕ)
    → a % 0x1000 ≡ 0
    → p % 0x1000 ≡ 0
    → a < 2 ^ 52
    → p < 2 ^ 52
    → frame p ≡ frame a
    → p ≡ a
frame-injective a p h k u v e = omega arith

module _ {zone taken : ℕ → ℕ} {limit : ℕ} {ram : Ram} {b : Buddy} {free : Lists}
    (v : IsBuddy zone taken limit ram b free) where
  -- The bit of a byte of the zone is in the bitset of each order.
  pub in_bitset :
      (k x : ℕ)
      → b.min_order ≤ k
      → k ≤ b.max_order
      → zone x ≡ 1
      → InRange (b.orders k).bitset (buddy_index x k)
  in_bitset k x lo hi z =
      let piece : x / 2 ^ k < 8 * length (b.orders k).bitset =
        (div-lt_iff_lt-mul (pow_pos k)).1
          (lt_of_lt_of_le (v.below x (omega arith)) (v.room k lo hi)) in
      omega arith

  -- A page that a caller holds is in none of the free lists' frames.
  held-IsFresh :
      (k p : ℕ) (blocks : List ℕ)
      → 12 ≤ k
      → p % 0x1000 ≡ 0
      → 0 < taken p
      → IsAligned k blocks
      → ((x : ℕ) → covered k blocks x ≤ cover 64 free x)
      → IsFresh p blocks
  held-IsFresh k p [] page e t al c = tt
  held-IsFresh k p (a ∷ rest) page e t al c = (
    λ same. other_byte (frame-injective a p (aligned_page k a page al.0) e here there same),
    held-IsFresh k p rest page e t al.1 (λ x. omega (arith, c x, covered-cons k a rest x)),
  )
    where
      own : 1 ≤ cover 64 free a
      own = omega (arith, c a, covered-cons k a rest a, inside_self k a)

      here : a < 2 ^ 52
      here = omega (arith, v.below a (omega (arith, own, v.conserved a)), v.low)

      there : p < 2 ^ 52
      there = omega (arith, v.below p (omega (arith, v.conserved p)), v.low)

      other_byte : p ≢ a
      other_byte q = absurd (omega (arith, own, v.conserved p, v.once p, ap (cover 64 free) q))

  pub page_IsFresh : (p k : ℕ) → p % 0x1000 ≡ 0 → 0 < taken p → IsFresh p (free k)
  page_IsFresh p k e t = elim (dec_lt k b.min_order) [
    | yes low ↦ rw (v.unused k (inl low)) tt
    | no at_least ↦ elim (dec_lt b.max_order k) [
      | yes high ↦ rw (v.unused k (inr high)) tt
      | no at_most ↦
          held-IsFresh k p (free k) (omega (arith, v.orders.page)) e t (v.aligned k)
            (λ x. covered-le-cover 64 free k x (omega (arith, v.orders.small)))
    ]
  ]
