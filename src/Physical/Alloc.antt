-- ===== src/Physical/Alloc.antt =====
-- `physical_alloc` of mm/physical.c.
use mint.Base.{
  ℕ, ◌%◌, ◌^◌, ◌≤◌, ◌<◌, bit_and, Option, some, ◌≡◌, ◌≢◌, ◌⊎◌, inl, inr, refl, ne→==-false,
}
use mint.Stack.{Ram}
use mint.Buddy.{wanted_order}
use mint.Buddy.Cover.{Lists}
use mint.Buddy.Alloc.{IsExhausted, buddy_alloc_lem}
use mint.Physical.{Physical, alloc_from, with_dma, with_normal, phys_dma, physical_alloc}
use mint.Physical.Regions.{Share, take_block, IsPhysical, dma-IsPhysical, normal-IsPhysical}

module _ {low high : Share} {ram : Ram} {p : Physical} (v : IsPhysical low high ram p) where
  -- No order from the wanted one on has a free block in the region, and nothing has changed.
  abbrev pub IsDenied : Lists → ℕ → Option (ℕ × Physical × Ram) → Type 0
  IsDenied free order result = IsExhausted free order × (result ≡ some (0, p, ram))

  -- In a valid state and without PHYS_DMA, a request for a positive number of bytes is served from the region above the
  -- boundary: either none of its free blocks is large enough, and the call gives 0 and changes
  -- nothing, or it returns an aligned block of at least the size, and both regions are valid with
  -- just that block of the upper one taken besides.
  pub physical_alloc-normal :
      (size flags : ℕ)
      → 0 < size
      → size < 2 ^ 64
      → bit_and flags phys_dma ≡ 0
      → let order = wanted_order v.normal.allocator size in
        let result = physical_alloc p size flags ram in
        (size ≤ 2 ^ order)
        × (IsDenied v.normal.free order result
            ⊎ ((a : ℕ) × (p' : Physical) × (ram' : Ram) × (result ≡ some (a, p', ram'))
                × (a % 2 ^ order ≡ 0)
                × IsPhysical low (take_block high order a) ram' p'))
  unfolding physical_alloc alloc_from
  physical_alloc-normal size flags h lt e =
      let (enough, answer) = buddy_alloc_lem v.normal.valid size h lt in
      (
        enough,
        elim answer [
          | inl (exhausted, r) ↦ inl (exhausted, rw (e, v.normal.present, r) refl)
          | inr (k, a, rest, b', ram', l, r, al, leaves) ↦ inr (
            a,
            with_normal p (some b'),
            ram',
            rw (e, v.normal.present, r) refl,
            al,
            normal-IsPhysical v _ b' ram' leaves,
          )
        ],
      )

  -- In a valid state and with PHYS_DMA, a request for a positive number of bytes is served from the region below the
  -- boundary: either none of its free blocks is large enough, and the call gives 0 and changes
  -- nothing, or it returns an aligned block of at least the size, and both regions are valid with
  -- just that block of the lower one taken besides.
  pub physical_alloc-dma :
      (size flags : ℕ)
      → 0 < size
      → size < 2 ^ 64
      → bit_and flags phys_dma ≢ 0
      → let order = wanted_order v.dma.allocator size in
        let result = physical_alloc p size flags ram in
        (size ≤ 2 ^ order)
        × (IsDenied v.dma.free order result
            ⊎ ((a : ℕ) × (p' : Physical) × (ram' : Ram) × (result ≡ some (a, p', ram'))
                × (a % 2 ^ order ≡ 0)
                × IsPhysical (take_block low order a) high ram' p'))
  unfolding physical_alloc alloc_from
  physical_alloc-dma size flags h lt ne =
      let (enough, answer) = buddy_alloc_lem v.dma.valid size h lt in
      let e = ne→==-false (bit_and flags phys_dma) 0 ne in
      (
        enough,
        elim answer [
          | inl (exhausted, r) ↦ inl (exhausted, rw (e, v.dma.present, r) refl)
          | inr (k, a, rest, b', ram', l, r, al, leaves) ↦ inr (
            a,
            with_dma p (some b'),
            ram',
            rw (e, v.dma.present, r) refl,
            al,
            dma-IsPhysical v _ b' ram' leaves,
          )
        ],
      )
