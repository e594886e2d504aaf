-- ===== src/Buddy/Moves.antt =====
-- The primitive moves of lib/buddy.c keep the invariant: a mark in a bitset, a push and a pop.
use native.Mathlib.Decide.{ℕ_discrete}
use mint.Base.{ℕ, ◌+◌, ◌%◌, ◌^◌, ◌≤◌, List, ◌∷◌, ◌≡◌, ap, arith, some, length, ==_refl, ne→==-false}
use mint.Bitset.Laws.{IsBytes, set_bit-IsStored}
use mint.Stack.{Ram}
use mint.Stack.Links.{
  IsFresh, stack_push-IsStack, stack_push-other, stack_pop-IsStack, IsStack-word,
}
use mint.Buddy.{Buddy, with_bitset, buddy_index, mark, push_block, pop_block}
use mint.Buddy.Cover.{
  Lists, put, inside, covered, covered-cons, cover-put, aligned_page, inside_self,
}
use mint.Buddy.Invariant.{IsBuddy, in_bitset, page_IsFresh}

module _ {zone taken : ℕ → ℕ} {limit : ℕ} {ram : Ram} {b : Buddy} {free : Lists}
    (v : IsBuddy zone taken limit ram b free) where
  -- A bitset of the same length may take the place of another.
  pub with_bitset-IsBuddy :
      (k : ℕ) (bitset : List ℕ)
      → IsBytes bitset
      → length bitset ≡ length (b.orders k).bitset
      → IsBuddy zone taken limit ram (with_bitset b k bitset) free
  with_bitset-IsBuddy k bitset bytes same = record {
    orders = record { page = v.orders.page; ordered = v.orders.ordered; small = v.orders.small };
    low = v.low;
    once = v.once;
    below = v.below;
    conserved = v.conserved;
    stacks = λ j low h. ground (arith, v.stacks j low h);
    unused = v.unused;
    aligned = v.aligned;
    bytes = λ j lo hi. elim (ℕ_discrete k j) [
      | yes e ↦ rw (e, ==_refl j) bytes
      | no ne ↦ rw (ne→==-false k j ne) (v.bytes j lo hi)
    ];
    room = λ j lo hi. elim (ℕ_discrete k j) [
      | yes e ↦ rw (← e, ==_refl k, same) (v.room k (rw e lo) (rw e hi))
      | no ne ↦ rw (ne→==-false k j ne) (v.room j lo hi)
    ];
  }

  -- Only the values of `taken` matter.
  pub taken-IsBuddy :
      (taken' : ℕ → ℕ) → ((x : ℕ) → taken x ≡ taken' x) → IsBuddy zone taken' limit ram b free
  taken-IsBuddy taken' same = record {
    orders = v.orders;
    low = v.low;
    once = v.once;
    below = v.below;
    conserved = λ x. omega (arith, same x, v.conserved x);
    stacks = v.stacks;
    unused = v.unused;
    aligned = v.aligned;
    bytes = v.bytes;
    room = v.room;
  }

  -- A mark of a byte of the zone succeeds.
  pub mark-IsBuddy :
      (k x : ℕ)
      → b.min_order ≤ k
      → k ≤ b.max_order
      → zone x ≡ 1
      → (bitset : List ℕ) × (mark b k x ≡ some (with_bitset b k bitset))
        × IsBuddy zone taken limit ram (with_bitset b k bitset) free
  unfolding mark
  mark-IsBuddy k x lo hi z =
      let (out, runs, stored) =
        set_bit-IsStored (b.orders k).bitset (buddy_index x k) (v.bytes k lo hi)
          (in_bitset v k x lo hi z) in
      (out, rw runs, with_bitset-IsBuddy k out stored.bytes stored.same_length)

  -- A popped block is held from then on, and the pop writes nothing.
  pub pop_block-IsBuddy :
      (k a : ℕ) (rest : List ℕ)
      → b.min_order ≤ k
      → k ≤ b.max_order
      → free k ≡ a ∷ rest
      → let (addr, b', ram') = pop_block b k ram in
        (addr ≡ a)
        × (ram'.word ≡ ram.word)
        × IsBuddy zone (λ x. taken x + inside k a x) limit ram' b' (put free k rest)
  unfolding pop_block
  pop_block-IsBuddy k a rest lo hi e =
      let (same, popped, words) =
        stack_pop-IsStack ram (b.orders k).free a rest (rw (← e) (v.stacks k lo (omega arith))) in
      (
        same,
        words,
        record {
          orders = record {
            page = v.orders.page;
            ordered = v.orders.ordered;
            small = v.orders.small;
          };
          low = v.low;
          once = v.once;
          below = v.below;
          conserved = λ x. omega (
            arith,
            v.conserved x,
            cover-put 64 free k rest x (omega (arith, v.orders.small)),
            ap (λ l. covered k l x) e,
            covered-cons k a rest x,
          );
          stacks = λ j low h. elim (ℕ_discrete k j) [
            | yes q ↦ rw (← q, ==_refl k) popped
            | no ne ↦ rw (ne→==-false k j ne) (IsStack-word ram _ _ _ words (v.stacks j low h))
          ];
          unused = λ j h. elim (ℕ_discrete k j) [
            | yes q ↦ absurd (omega arith)
            | no ne ↦ rw (ne→==-false k j ne) (v.unused j h)
          ];
          aligned = λ j. elim (ℕ_discrete k j) [
            | yes q ↦ rw (← q, ==_refl k) (rw e at (v.aligned k)).1
            | no ne ↦ rw (ne→==-false k j ne) (v.aligned j)
          ];
          bytes = λ j lo' hi'. ground (arith, v.bytes j lo' hi');
          room = λ j lo' hi'. ground (arith, v.room j lo' hi');
        },
      )

  -- A held block may be pushed: its caller holds it no longer.
  pub push_block-IsBuddy :
      (k p : ℕ) (kept : ℕ → ℕ)
      → b.min_order ≤ k
      → k ≤ b.max_order
      → p % 2 ^ k ≡ 0
      → ((x : ℕ) → taken x ≡ kept x + inside k p x)
      → let (b', ram') = push_block b k p ram in
        IsBuddy zone kept limit ram' b' (put free k (p ∷ free k))
  unfolding push_block
  push_block-IsBuddy k p kept lo hi al t = record {
    orders = record { page = v.orders.page; ordered = v.orders.ordered; small = v.orders.small };
    low = v.low;
    once = v.once;
    below = v.below;
    conserved = λ x. omega (
      arith,
      t x,
      v.conserved x,
      cover-put 64 free k (p ∷ free k) x (omega (arith, v.orders.small)),
      covered-cons k p (free k) x,
    );
    stacks = λ j low h. elim (ℕ_discrete k j) [
      | yes q ↦
          rw (← q, ==_refl k)
            (stack_push-IsStack ram (b.orders k).free p (free k) (fresh k) (v.stacks k lo (rw q h)))
      | no ne ↦ rw (ne→==-false k j ne) (
          stack_push-other ram (b.orders k).free (b.orders j).free p (free j) (fresh j)
            (v.stacks j low h))
    ];
    unused = λ j h. elim (ℕ_discrete k j) [
      | yes q ↦ absurd (omega arith)
      | no ne ↦ rw (ne→==-false k j ne) (v.unused j h)
    ];
    aligned = λ j. elim (ℕ_discrete k j) [
      | yes q ↦ rw (← q, ==_refl k) (al, v.aligned k)
      | no ne ↦ rw (ne→==-false k j ne) (v.aligned j)
    ];
    bytes = λ j lo' hi'. ground (arith, v.bytes j lo' hi');
    room = λ j lo' hi'. ground (arith, v.room j lo' hi');
  }
    where
      fresh : (j : ℕ) → IsFresh p (free j)
      fresh j =
          page_IsFresh v p j (aligned_page k p (omega (arith, v.orders.page)) al)
            (omega (arith, t p, inside_self k p))
