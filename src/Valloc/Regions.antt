-- ===== src/Valloc/Regions.antt =====
-- The ranges that mm/valloc.c hands out.
use native.Mathlib.Decide.{dec_lt}
use mint.Base.{
  ℕ, ◌+◌, ◌^◌, ◌≤◌, ◌<◌, List, [], ◌∷◌, ◌≡◌, ◌⊎◌, inl, inr, refl, arith, lt→ltb, not_lt→ltb,
}
use mint.Math.{u64}
use mint.Valloc.{VallocRegion, valloc_create, valloc_alloc}

-- A region that does not wrap, with what is handed out at its start.
pub record IsRegion (region : VallocRegion) : Type 0 where
  pub started : region.base ≤ region.current
  pub within : region.current ≤ region.base + region.extent
  pub no_wrap : region.base + region.extent < 2 ^ 64

pub valloc_create-IsRegion :
    (base extent : ℕ) → base + extent < 2 ^ 64 → IsRegion (valloc_create base extent)
unfolding valloc_create
valloc_create-IsRegion base extent h = record {
  started = omega arith;
  within = omega arith;
  no_wrap = h;
}

-- What the calls for some sizes return, in their order.
unfoldable pub valloc_calls : VallocRegion → List ℕ → List ℕ × VallocRegion
valloc_calls region [] = ([], region)
valloc_calls region (size ∷ sizes) =
    let (addr, region') = valloc_alloc region size in
    let (addrs, end) = valloc_calls region' sizes in (addr ∷ addrs, end)

-- Each address that is not 0 starts a range of its size behind `low` and before `high`, and the ranges
-- after it start behind it: no two have an address in common.
abbrev pub InTurn : ℕ → ℕ → List ℕ → List ℕ → Type 0
InTurn low high [] addrs = addrs ≡ []
InTurn low high (size ∷ sizes) [] = ⊥
InTurn low high (size ∷ sizes) (addr ∷ addrs) =
    ((addr ≡ 0) × InTurn low high sizes addrs)
    ⊎ ((low ≤ addr) × (addr + size ≤ high) × InTurn (addr + size) high sizes addrs)

-- No sum of a size and the end of the region wraps.
abbrev pub AllSmall : ℕ → List ℕ → Type 0
AllSmall high [] = Unit {0}
AllSmall high (size ∷ sizes) = (high + size < 2 ^ 64) × AllSmall high sizes

alloc_cases :
    (region : VallocRegion) (size : ℕ)
    → IsRegion region
    → region.base + region.extent + size < 2 ^ 64
    → (valloc_alloc region size ≡ (0, region))
      ⊎ ((valloc_alloc region size
            ≡ (region.current, record region { current = region.current + size }))
          × (region.current + size ≤ region.base + region.extent))
unfolding valloc_alloc
alloc_cases region size r small =
    let high : u64 (region.base + region.extent) ≡ region.base + region.extent =
      omega (arith, r.no_wrap) in
    let next : u64 (region.current + size) ≡ region.current + size = omega (arith, r.within) in
    elim (dec_lt (region.base + region.extent) (region.current + size)) [
      | yes full ↦
          inl (
            rw (high, next, lt→ltb (region.base + region.extent) (region.current + size) full) refl)
      | no free ↦ inr (
        rw
            (
              high,
              next,
              not_lt→ltb (region.base + region.extent) (region.current + size) (omega arith),
            )
            refl,
        omega arith,
      )
    ]

-- From a region that does not wrap, the ranges that a sequence of calls hands out lie in the region,
-- behind what was handed out before, one behind the other, and the region is such a region again. No
-- sum of a size and the region's end may wrap.
pub valloc_calls-InTurn :
    (region : VallocRegion) (sizes : List ℕ)
    → IsRegion region
    → AllSmall (region.base + region.extent) sizes
    → let (addrs, end) = valloc_calls region sizes in
      InTurn region.current (region.base + region.extent) sizes addrs × IsRegion end
unfolding valloc_calls
valloc_calls-InTurn region [] r small = (refl, r)
valloc_calls-InTurn region (size ∷ sizes) r small = elim (alloc_cases region size r small.0) [
  | inl e ↦
      let (turn, valid) = valloc_calls-InTurn region sizes r small.1 in
      rw e (inl (refl, turn), valid)
  | inr (e, free) ↦
      let region' = record region { current = region.current + size } in
      let (turn, valid) =
        valloc_calls-InTurn region' sizes
          (record { started = omega (arith, r.started); within = free; no_wrap = r.no_wrap })
          small.1 in
      rw e (inr (omega arith, free, turn), valid)
]
