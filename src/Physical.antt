-- ===== src/Physical.antt =====
-- mm/physical.c: the two regions of physical memory, each with an allocator of lib/buddy.c.
pub mod Shared
pub mod Regions
pub mod Alloc
pub mod Free
pub mod Bounds
use mint.Base.{
  ℕ, ◌+◌, ◌-◌, ◌^◌, bit_and, Option, none, some, ◌>>=◌, ltb, leb, ◌==◌, ◌&&◌, if◌then◌else◌,
}
use mint.Math.{u64}
use mint.Stack.{Ram}
use mint.Buddy.{Order, Buddy, buddy_init, buddy_alloc, buddy_free, buddy_free_region}

-- `struct physical_region`. `none` is the `NULL` of a refused `buddy_init`.
pub record Region : Type 0 where
  pub base : ℕ
  pub size : ℕ
  pub buddy : Option Buddy

-- The two static regions.
pub record Physical : Type 0 where
  pub dma : Region
  pub normal : Region

-- `raw` and `raw'` are what the two fresh blocks of `kmalloc` hold.
unfoldable pub physical_init : (ℕ → Order) → (ℕ → Order) → ℕ → ℕ → Physical
physical_init raw raw' size dma_boundary =
    let rest = u64 (size + (2 ^ 64 - dma_boundary)) in
    record {
      dma = record { base = 0; size = dma_boundary; buddy = buddy_init raw 0 dma_boundary 12 16 };
      normal = record {
        base = dma_boundary;
        size = rest;
        buddy = buddy_init raw' dma_boundary rest 12 28;
      };
    }

-- `buddy_alloc` with its test for `NULL`.
unfoldable pub alloc_from : Option Buddy → ℕ → Ram → Option (ℕ × Option Buddy × Ram)
alloc_from none size ram = some (0, none, ram)
alloc_from (some b) size ram =
    buddy_alloc b size ram >>= λ (addr, b', ram'). some (addr, some b', ram')

-- `buddy_free` and `buddy_free_region` read through the pointer at once.
unfoldable pub free_to : Option Buddy → ℕ → ℕ → Ram → Option (Option Buddy × Ram)
free_to none addr size ram = none
free_to (some b) addr size ram = buddy_free b addr size ram >>= λ (b', ram'). some (some b', ram')

unfoldable pub free_region_to : ℕ → Option Buddy → ℕ → ℕ → Ram → Option (Option Buddy × Ram)
free_region_to fuel none start size ram = none
free_region_to fuel (some b) start size ram =
    buddy_free_region fuel b start size ram >>= λ (b', ram'). some (some b', ram')

abbrev pub with_dma : Physical → Option Buddy → Physical
with_dma p buddy = record p { dma = record p.dma { buddy = buddy } }

abbrev pub with_normal : Physical → Option Buddy → Physical
with_normal p buddy = record p { normal = record p.normal { buddy = buddy } }

-- The flag PHYS_DMA.
abbrev pub phys_dma : ℕ
phys_dma = 0x1

-- The state after a call to the allocator of one region.
abbrev pub after_dma : Physical → Option (Option Buddy × Ram) → Option (Physical × Ram)
after_dma p result = result >>= λ (b, ram'). some (with_dma p b, ram')

abbrev pub after_normal : Physical → Option (Option Buddy × Ram) → Option (Physical × Ram)
after_normal p result = result >>= λ (b, ram'). some (with_normal p b, ram')

unfoldable pub physical_alloc : Physical → ℕ → ℕ → Ram → Option (ℕ × Physical × Ram)
physical_alloc p size flags ram =
    if bit_and flags phys_dma == 0
    then (alloc_from p.normal.buddy size ram >>= λ (addr, b, ram').
        some (addr, with_normal p b, ram'))
    else (alloc_from p.dma.buddy size ram >>= λ (addr, b, ram'). some (addr, with_dma p b, ram'))

unfoldable pub physical_free : Physical → ℕ → ℕ → Ram → Option (Physical × Ram)
physical_free p addr size ram =
    if ltb addr p.dma.size
    then after_dma p (free_to p.dma.buddy addr size ram)
    else after_normal p (free_to p.normal.buddy addr size ram)

-- A region that starts below the boundary and ends past it: what is below goes to the first
-- allocator, and the rest to the second.
unfoldable pub free_across : ℕ → Physical → ℕ → ℕ → Ram → Option (Physical × Ram)
free_across fuel p start size ram = do
  let boundary = u64 (p.dma.base + p.dma.size)
  let dma_size = u64 (boundary + (2 ^ 64 - start))
  (b, ram') ← free_region_to fuel p.dma.buddy start dma_size ram
  (b', ram'') ← free_region_to fuel p.normal.buddy boundary (u64 (size + (2 ^ 64 - dma_size))) ram'
  some (with_normal (with_dma p b) b', ram'')

unfoldable pub physical_free_region : ℕ → Physical → ℕ → ℕ → Ram → Option (Physical × Ram)
physical_free_region fuel p start size ram =
    if ltb start p.dma.size
    then (if ltb start p.dma.size && leb p.dma.size (u64 (start + size))
        then free_across fuel p start size ram
        else after_dma p (free_region_to fuel p.dma.buddy start size ram))
    else after_normal p (free_region_to fuel p.normal.buddy start size ram)
