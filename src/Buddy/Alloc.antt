-- ===== src/Buddy/Alloc.antt =====
-- `buddy_alloc` of lib/buddy.c: when it serves a request, with which block, and what it leaves.
use native.Mathlib.Nat.{le_trans, le_of_lt, pow-le-pow_right}
use native.Mathlib.Decide.{dec_lt, ℕ_discrete}
use mint.Base.{
  ℕ, zero, suc, ◌+◌, ◌-◌, ◌%◌, ◌^◌, ◌≤◌, ◌<◌, true, false, List, [], ◌∷◌, ◌≡◌, ◌⊎◌, inl, inr, refl,
  ap, arith, Option, none, some, length, lt→ltb, not_lt→ltb, ◌==◌, ne→==-false,
}
use mint.Math.{log_2}
use mint.Math.Log.{log_2_least}
use mint.Stack.{Ram}
use mint.Buddy.{
  Buddy, with_bitset, pop_block, find_larger, wanted_order, alloc_larger, alloc_exact, buddy_alloc,
}
use mint.Buddy.Cover.{Lists, put, inside, inside_self, aligned_below}
use mint.Buddy.Invariant.{IsBuddy}
use mint.Buddy.Pages.{Keeps-words, Keeps-trans}
use mint.Buddy.Moves.{mark-IsBuddy, pop_block-IsBuddy}
use mint.Buddy.Split.{Leaves, held_in_zone, split-Leaves}

List-cases : (l : List ℕ) → (l ≡ []) ⊎ ((a : ℕ) × (rest : List ℕ) × (l ≡ a ∷ rest))
List-cases [] = inl refl
List-cases (a ∷ rest) = inr (a, rest, refl)

-- `k` is the least order from `order` on with a free block, and `a` is on top of its stack.
pub record IsLeast (free : Lists) (order k a : ℕ) (rest : List ℕ) : Type 0 where
  pub at_least : order ≤ k
  pub none_below : (j : ℕ) → order ≤ j → j < k → free j ≡ []
  pub top : free k ≡ a ∷ rest

-- No order from `order` on has a free block.
abbrev pub IsExhausted : Lists → ℕ → Type 0
IsExhausted free order = (k : ℕ) → order ≤ k → free k ≡ []

IsExhausted-from :
    (free : Lists) (order : ℕ)
    → free order ≡ []
    → IsExhausted free (order + 1)
    → IsExhausted free order
IsExhausted-from free order e h k le = elim (ℕ_discrete order k) [
  | yes same ↦ rw (← same) e
  | no ne ↦ h k (omega arith)
]

IsLeast-from :
    (free : Lists) (order k a : ℕ) (rest : List ℕ)
    → free order ≡ []
    → IsLeast free (order + 1) k a rest
    → IsLeast free order k a rest
IsLeast-from free order k a rest e l = record {
  at_least = omega (arith, l.at_least);
  none_below = λ j p q. elim (ℕ_discrete order j) [
    | yes same ↦ rw (← same) e
    | no ne ↦ l.none_below j (omega arith) q
  ];
  top = l.top;
}

module _ {zone taken : ℕ → ℕ} {limit : ℕ} {ram : Ram} {b : Buddy} {free : Lists}
    (v : IsBuddy zone taken limit ram b free) where
  size-empty :
      (k : ℕ)
      → b.min_order ≤ k
      → k ≤ b.max_order + 1
      → free k ≡ []
      → ((b.orders k).free.size == 0) ≡ true
  size-empty k lo h e =
      let s = v.stacks k lo h in
      let none_left : (b.orders k).free.size ≡ 0 = omega (arith, s.count, ap length e) in
      rw none_left

  size-cons :
      (k a : ℕ) (rest : List ℕ)
      → b.min_order ≤ k
      → k ≤ b.max_order + 1
      → free k ≡ a ∷ rest
      → ((b.orders k).free.size == 0) ≡ false
  size-cons k a rest lo h e =
      let s = v.stacks k lo h in
      ne→==-false (b.orders k).free.size 0 (omega (arith, s.count, ap length e))

  in_use : (k a : ℕ) (rest : List ℕ) → free k ≡ a ∷ rest → (b.min_order ≤ k) × (k ≤ b.max_order)
  in_use k a rest e = elim (dec_lt k b.min_order) [
    | yes low ↦ absurd (cc (v.unused k (inl low)))
    | no at_least ↦ elim (dec_lt b.max_order k) [
      | yes high ↦ absurd (cc (v.unused k (inr high)))
      | no at_most ↦ (omega arith, omega arith)
    ]
  ]

  -- The search ends with the least larger order that has a block, if there is one.
  find_larger_lem :
      (left order : ℕ)
      → b.min_order ≤ order
      → order + left ≡ b.max_order + 1
      → ((find_larger left b order ≡ none) × IsExhausted free (order + 1))
        ⊎ ((k a : ℕ) × (rest : List ℕ) × (find_larger left b order ≡ some k)
            × IsLeast free (order + 1) k a rest)
  unfolding find_larger
  find_larger_lem zero order lo e = inl (refl, λ k h. v.unused k (inr (omega arith)))
  find_larger_lem (suc left) order lo e = elim (List-cases (free (order + 1))) [
    | inl empty ↦
        let next = size-empty (order + 1) (omega arith) (omega arith) empty in
        elim (find_larger_lem left (order + 1) (omega arith) (omega arith)) [
          | inl (runs, h) ↦ inl (rw next runs, IsExhausted-from free (order + 1) empty h)
          | inr (k, a, rest, runs, l) ↦
              inr (k, a, rest, rw next runs, IsLeast-from free (order + 1) k a rest empty l)
        ]
    | inr (a, rest, top) ↦ inr (
      order + 1,
      a,
      rest,
      rw (size-cons (order + 1) a rest (omega arith) (omega arith) top),
      record { at_least = omega arith; none_below = λ j p q. absurd (omega arith); top = top },
    )
  ]

  -- A refused request: nothing is free at the order or above, 0 is returned and nothing changes.
  abbrev pub IsRefused : ℕ → Option (ℕ × Buddy × Ram) → Type 0
  IsRefused order result = IsExhausted free order × (result ≡ some (0, b, ram))

  -- A served one: the top block of the least order with one is cut down to `order`. Its start is
  -- returned, and from then on that piece is taken, and nothing else.
  abbrev pub IsServed : ℕ → Option (ℕ × Buddy × Ram) → Type 0
  IsServed order result =
      (k a : ℕ) × (rest : List ℕ) × (b' : Buddy) × (ram' : Ram) × IsLeast free order k a rest
      × (result ≡ some (a, b', ram'))
      × (a % 2 ^ order ≡ 0)
      × Leaves zone (λ x. taken x + inside order a x) limit b ram b' ram'

  alloc_exact-IsServed :
      (order a : ℕ) (rest : List ℕ)
      → free order ≡ a ∷ rest
      → IsServed order (alloc_exact b order ram)
  unfolding alloc_exact pop_block
  alloc_exact-IsServed order a rest e =
      let (lo, hi) = in_use order a rest e in
      let (same, words, v') = pop_block-IsBuddy v order a rest lo hi e in
      let z = held_in_zone a v' (omega (arith, inside_self order a)) in
      let (bits, marks, v'') = mark-IsBuddy v' order a lo hi z in
      (
        order,
        a,
        rest,
        with_bitset (pop_block b order ram).1 order bits,
        (pop_block b order ram).2,
        record { at_least = omega arith; none_below = λ j p q. absurd (omega arith); top = e },
        rw (same, marks),
        (rw e at (v.aligned order)).0,
        record {
          free = put free order rest;
          valid = v'';
          same_min = refl;
          same_max = refl;
          keeps = Keeps-words zone ram _ words;
        },
      )

  alloc_larger-none :
      (order : ℕ)
      → find_larger (b.max_order + 1 - order) b order ≡ none
      → alloc_larger b order ram ≡ some (0, b, ram)
  unfolding alloc_larger
  alloc_larger-none order e = rw (e, alloc_larger)

  alloc_larger-IsServed :
      (order k a : ℕ) (rest : List ℕ)
      → b.min_order ≤ order
      → find_larger (b.max_order + 1 - order) b order ≡ some k
      → IsLeast free order k a rest
      → IsServed order (alloc_larger b order ram)
  unfolding alloc_larger pop_block
  alloc_larger-IsServed order k a rest lo found l =
      let (lo', hi) = in_use k a rest l.top in
      let e : k ≡ order + (k - order) = omega (arith, l.at_least) in
      let (same, words, v') = pop_block-IsBuddy v k a rest lo' hi l.top in
      let al : a % 2 ^ k ≡ 0 = (rw l.top at (v.aligned k)).0 in
      let (b', ram', runs, leaves) =
        split-Leaves (k - order) order a taken v' lo (rw (← e) hi) (rw (← e) al) (λ x. rw (← e)) in
      (
        k,
        a,
        rest,
        b',
        ram',
        l,
        rw (found, alloc_larger, same, runs),
        aligned_below order k a l.at_least al,
        record {
          free = leaves.free;
          valid = leaves.valid;
          same_min = leaves.same_min;
          same_max = leaves.same_max;
          keeps = Keeps-trans zone ram _ ram' (Keeps-words zone ram _ words) leaves.keeps;
        },
      )

  alloc_larger_lem :
      (order : ℕ)
      → b.min_order ≤ order
      → order ≤ b.max_order
      → free order ≡ []
      → IsRefused order (alloc_larger b order ram) ⊎ IsServed order (alloc_larger b order ram)
  alloc_larger_lem order lo hi empty =
      elim (find_larger_lem (b.max_order + 1 - order) order lo (omega arith)) [
        | inl (runs, h) ↦ inl (IsExhausted-from free order empty h, alloc_larger-none order runs)
        | inr (k, a, rest, runs, l) ↦ inr (
            alloc_larger-IsServed order k a rest lo runs (IsLeast-from free order k a rest empty l))
      ]

  wanted_bounds :
      (size : ℕ)
      → 0 < size
      → size < 2 ^ 64
      → (b.min_order ≤ wanted_order b size) × (size ≤ 2 ^ wanted_order b size)
  unfolding wanted_order
  wanted_bounds size p h = elim (dec_lt (log_2 size) b.min_order) [
    | yes q ↦ rw (lt→ltb _ _ q) (
      omega arith,
      le_trans (log_2_least size p h).0 (pow-le-pow_right {n = 2} (omega arith) (le_of_lt q)),
    )
    | no q ↦
        rw (not_lt→ltb (log_2 size) b.min_order (omega arith))
          (omega arith, (log_2_least size p h).0)
  ]

  -- In a valid allocator a request for a positive number of bytes wants an order whose blocks hold
  -- it. Either no order from that one on has a free block, and the call gives 0 and changes nothing,
  -- or it takes the top block of the least such order and returns an aligned address. The allocator
  -- is then valid with just the block of the wanted order at that address taken besides.
  pub buddy_alloc_lem :
      (size : ℕ)
      → 0 < size
      → size < 2 ^ 64
      → let order = wanted_order b size in
        (size ≤ 2 ^ order)
        × (IsRefused order (buddy_alloc b size ram) ⊎ IsServed order (buddy_alloc b size ram))
  unfolding buddy_alloc
  buddy_alloc_lem size p h =
      let order = wanted_order b size in
      let (lo, enough) = wanted_bounds size p h in
      (
        enough,
        elim (dec_lt b.max_order order) [
          | yes q ↦ rw (lt→ltb _ _ q) (inl (λ k le. v.unused k (inr (omega arith)), refl))
          | no q ↦ rw (not_lt→ltb b.max_order order (omega arith)) (elim (List-cases (free order)) [
            | inl empty ↦
                rw (size-empty order lo (omega arith) empty)
                  (alloc_larger_lem order lo (omega arith) empty)
            | inr (a, rest, e) ↦
                rw (size-cons order a rest lo (omega arith) e)
                  (inr (alloc_exact-IsServed order a rest e))
          ])
        ],
      )
