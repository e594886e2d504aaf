-- ===== src/Valloc.antt =====
-- mm/valloc.c: addresses handed out one after the other.
pub mod Regions
use mint.Base.{ℕ, ◌+◌, ltb, if◌then◌else◌}
use mint.Math.{u64}

-- `struct valloc_region`.
pub record VallocRegion : Type 0 where
  pub base : ℕ
  pub extent : ℕ
  pub current : ℕ

-- `kmalloc` has space.
unfoldable pub valloc_create : ℕ → ℕ → VallocRegion
valloc_create base extent = record { base = base; extent = extent; current = base }

-- The address, 0 if there is no space left, and the region.
unfoldable pub valloc_alloc : VallocRegion → ℕ → ℕ × VallocRegion
valloc_alloc region size =
    if ltb (u64 (region.base + region.extent)) (u64 (region.current + size))
    then (0, region)
    else (region.current, record region { current = u64 (region.current + size) })

abbrev pub valloc_free : VallocRegion → ℕ → VallocRegion
valloc_free region addr = region
