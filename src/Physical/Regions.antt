-- ===== src/Physical/Regions.antt =====
-- What holds of the two regions of mm/physical.c between calls.
use mint.Base.{ℕ, ◌+◌, ◌≤◌, ◌<◌, some, ◌≡◌, refl, arith}
use mint.Stack.{Ram}
use mint.Buddy.{Buddy}
use mint.Buddy.Cover.{Lists, inside}
use mint.Buddy.Invariant.{IsBuddy}
use mint.Buddy.Split.{Leaves}
use mint.Physical.{Physical, Region, with_dma, with_normal}
use mint.Physical.Shared.{other-IsBuddy}

-- The bytes of a region, those of them that are taken, and the bound of its bitsets.
pub record Share : Type 0 where
  pub zone : ℕ → ℕ
  pub taken : ℕ → ℕ
  pub limit : ℕ

-- The share with the block of `order` at `a` taken besides.
abbrev pub take_block : Share → ℕ → ℕ → Share
take_block s order a = record s { taken = λ x. s.taken x + inside order a x }

-- A region whose allocator is there and valid.
pub record IsRegion (s : Share) (ram : Ram) (r : Region) : Type 0 where
  pub allocator : Buddy
  pub present : r.buddy ≡ some allocator
  pub free : Lists
  pub valid : IsBuddy s.zone s.taken s.limit ram allocator free

-- Both regions are valid, and the boundary parts them.
pub record IsPhysical (low high : Share) (ram : Ram) (p : Physical) : Type 0 where
  pub dma : IsRegion low ram p.dma
  pub normal : IsRegion high ram p.normal
  pub below : (x : ℕ) → 0 < low.zone x → x < p.dma.size
  pub above : (x : ℕ) → 0 < high.zone x → p.dma.size ≤ x

module _ {low high : Share} {ram : Ram} {p : Physical} (v : IsPhysical low high ram p) where
  apart : (x : ℕ) → low.zone x + high.zone x ≤ 1
  apart x = grind (arith, v.below x, v.above x, v.dma.valid.once x, v.normal.valid.once x)

  apart' : (x : ℕ) → high.zone x + low.zone x ≤ 1
  apart' x = omega (arith, apart x)

  -- What one allocator leaves makes the memory valid again.
  pub dma-IsPhysical :
      (t : ℕ → ℕ) (b' : Buddy) (ram' : Ram)
      → Leaves low.zone t low.limit v.dma.allocator ram b' ram'
      → IsPhysical (record low { taken = t }) high ram' (with_dma p (some b'))
  dma-IsPhysical t b' ram' l = record {
    dma = record { allocator = b'; present = refl; free = l.free; valid = l.valid };
    normal = record {
      allocator = v.normal.allocator;
      present = v.normal.present;
      free = v.normal.free;
      valid = other-IsBuddy v.normal.valid low.zone ram' apart' l.keeps;
    };
    below = v.below;
    above = v.above;
  }

  pub normal-IsPhysical :
      (t : ℕ → ℕ) (b' : Buddy) (ram' : Ram)
      → Leaves high.zone t high.limit v.normal.allocator ram b' ram'
      → IsPhysical low (record high { taken = t }) ram' (with_normal p (some b'))
  normal-IsPhysical t b' ram' l = record {
    dma = record {
      allocator = v.dma.allocator;
      present = v.dma.present;
      free = v.dma.free;
      valid = other-IsBuddy v.dma.valid high.zone ram' apart l.keeps;
    };
    normal = record { allocator = b'; present = refl; free = l.free; valid = l.valid };
    below = v.below;
    above = v.above;
  }
