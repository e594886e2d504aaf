-- ===== src/Tests/VallocTests.antt =====
-- mm/valloc.c with a region of 1000 bytes.
use mint.Base.{◌+◌, [], ◌∷◌, ◌≡◌, refl, arith}
use mint.Valloc.{VallocRegion, valloc_create, valloc_alloc}
use mint.Valloc.Regions.{
  IsRegion, InTurn, valloc_calls, valloc_create-IsRegion, valloc_calls-InTurn,
}

abbrev region : VallocRegion
region = valloc_create 5000 1000

valloc_run : (valloc_calls region (600 ∷ 500 ∷ 400 ∷ [])).0 ≡ 5000 ∷ 0 ∷ 5600 ∷ []
unfolding valloc_calls valloc_alloc valloc_create
valloc_run = refl

valloc_calls-InTurn_example :
    let (addrs, end) = valloc_calls region (600 ∷ 500 ∷ 400 ∷ []) in
    InTurn region.current (region.base + region.extent) (600 ∷ 500 ∷ 400 ∷ []) addrs × IsRegion end
unfolding valloc_create
valloc_calls-InTurn_example =
    valloc_calls-InTurn region (600 ∷ 500 ∷ 400 ∷ [])
      (valloc_create-IsRegion 5000 1000 (omega arith))
      (omega arith, (omega arith, (omega arith, tt)))
