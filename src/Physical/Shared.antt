-- ===== src/Physical/Shared.antt =====
-- Two allocators of lib/buddy.c in one memory.
use mint.Base.{ℕ, ◌+◌, ◌^◌, ◌≤◌, ◌<◌, List, [], ◌∷◌, ◌≡◌, arith}
use mint.Stack.{Ram, frame}
use mint.Stack.Links.{Links, IsStack}
use mint.Buddy.{Buddy}
use mint.Buddy.Cover.{
  Lists, covered, cover, covered-cons, covered-le-cover, inside_self, aligned_page,
}
use mint.Buddy.Invariant.{IsBuddy, IsAligned}
use mint.Buddy.Pages.{Keeps}

module _ {zone taken : ℕ → ℕ} {limit : ℕ} {ram : Ram} {b : Buddy} {free : Lists}
    (v : IsBuddy zone taken limit ram b free) (zone' : ℕ → ℕ) (ram' : Ram)
    (apart : (x : ℕ) → zone x + zone' x ≤ 1) (keeps : Keeps zone' ram ram') where
  -- A chain through free blocks is the same chain after the other allocator has written.
  Links-same :
      (k top : ℕ) (blocks : List ℕ)
      → 12 ≤ k
      → IsAligned k blocks
      → ((x : ℕ) → covered k blocks x ≤ cover 64 free x)
      → Links ram.word top blocks
      → Links ram'.word top blocks
  Links-same k top [] page al c l = l
  Links-same k top (a ∷ rest) page al c l =
      let own : 1 ≤ cover 64 free a =
        omega (arith, c a, covered-cons k a rest a, inside_self k a) in
      let low : a < 2 ^ 52 = omega (arith, v.below a (omega (arith, own, v.conserved a)), v.low) in
      let outside : zone' a ≡ 0 = omega (arith, own, v.conserved a, apart a) in
      (
        l.0,
        rw (keeps.same_word a (aligned_page k a page al.0) low outside) (
            Links-same k (ram.word (frame a)) rest page al.1
              (λ x. omega (arith, c x, covered-cons k a rest x)) l.1),
      )

  IsStack-same :
      (k : ℕ) → b.min_order ≤ k → k ≤ b.max_order + 1 → IsStack ram' (b.orders k).free (free k)
  IsStack-same k lo hi = record {
    count = (v.stacks k lo hi).count;
    links =
        Links-same k (b.orders k).free.top (free k) (omega (arith, v.orders.page)) (v.aligned k)
          (λ x. covered-le-cover 64 free k x (omega (arith, v.orders.small)))
          (v.stacks k lo hi).links;
  }

  pub other-IsBuddy : IsBuddy zone taken limit ram' b free
  other-IsBuddy = record {
    orders = v.orders;
    low = v.low;
    once = v.once;
    below = v.below;
    conserved = v.conserved;
    stacks = IsStack-same;
    unused = v.unused;
    aligned = v.aligned;
    bytes = v.bytes;
    room = v.room;
  }
