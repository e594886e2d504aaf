-- ===== src/Physical/Free.antt =====
-- `physical_free` of mm/physical.c.
use mint.Base.{ℕ, ◌+◌, ◌%◌, ◌^◌, ◌≤◌, some, ◌≡◌, refl, arith, lt→ltb, not_lt→ltb}
use mint.Stack.{Ram}
use mint.Math.{log_2}
use mint.Buddy.Cover.{inside, inside_self}
use mint.Buddy.Split.{held_in_zone}
use mint.Buddy.Free.{Stops, buddy_free-Leaves}
use mint.Physical.{Physical, free_to, with_dma, with_normal, physical_free}
use mint.Physical.Regions.{Share, IsPhysical, dma-IsPhysical, normal-IsPhysical}

module _ {low high : Share} {ram : Ram} {p : Physical} (v : IsPhysical low high ram p) where
  -- A block above the boundary that is aligned and held, and whose buddy is in use or whose order is
  -- the largest, goes back to the upper region alone, and both regions stay valid.
  pub physical_free-normal :
      (a size : ℕ) (kept : ℕ → ℕ)
      → let order = log_2 size in
        v.normal.allocator.min_order ≤ order
        → order ≤ v.normal.allocator.max_order
        → a % 2 ^ order ≡ 0
        → ((x : ℕ) → high.taken x ≡ kept x + inside order a x)
        → Stops v.normal.allocator order a
        → (p' : Physical) × (ram' : Ram) × (physical_free p a size ram ≡ some (p', ram'))
          × IsPhysical low (record high { taken = kept }) ram' p'
  unfolding physical_free free_to
  physical_free-normal a size kept lo hi al t stops =
      let (b', ram', r, leaves) = buddy_free-Leaves v.normal.valid a size kept lo hi al t stops in
      let held = held_in_zone a v.normal.valid (omega (arith, t a, inside_self (log_2 size) a)) in
      let at_least : p.dma.size ≤ a = v.above a (omega arith) in
      (
        with_normal p (some b'),
        ram',
        rw (not_lt→ltb a p.dma.size (omega arith), v.normal.present, r) refl,
        normal-IsPhysical v kept b' ram' leaves,
      )

  -- A block below the boundary that is aligned and held, and whose buddy is in use or whose order is
  -- the largest, goes back to the lower region alone, and both regions stay valid.
  pub physical_free-dma :
      (a size : ℕ) (kept : ℕ → ℕ)
      → let order = log_2 size in
        v.dma.allocator.min_order ≤ order
        → order ≤ v.dma.allocator.max_order
        → a % 2 ^ order ≡ 0
        → ((x : ℕ) → low.taken x ≡ kept x + inside order a x)
        → Stops v.dma.allocator order a
        → (p' : Physical) × (ram' : Ram) × (physical_free p a size ram ≡ some (p', ram'))
          × IsPhysical (record low { taken = kept }) high ram' p'
  unfolding physical_free free_to
  physical_free-dma a size kept lo hi al t stops =
      let (b', ram', r, leaves) = buddy_free-Leaves v.dma.valid a size kept lo hi al t stops in
      let held = held_in_zone a v.dma.valid (omega (arith, t a, inside_self (log_2 size) a)) in
      (
        with_dma p (some b'),
        ram',
        rw (lt→ltb a p.dma.size (v.below a (omega arith)), v.dma.present, r) refl,
        dma-IsPhysical v kept b' ram' leaves,
      )
