-- ===== src/Tests/SymbolTests.antt =====
-- kernel/symbol.c with the symbols 20 and 10, at 5000 and 4000.
use mint.Base.{ℕ, ◌+◌, ◌-◌, ◌^◌, some, [], ◌∷◌, ◌≡◌, ◌⊎◌, refl, arith, ◌==◌, if◌then◌else◌}
use mint.Ring.{list_add, list_runtime_init}
use mint.Symbol.{Symbols, KsymbolResolve, ksymbol_resolve, resolve_from}
use mint.Symbol.Nearest.{IsAt, AllFarther, ksymbol_resolve-IsAt}
use mint.Ring.Chain.{IsAmong}
use mint.Tests.RingTests.{two_elements, two_elements-IsRing}

abbrev symbols : Symbols
symbols = record {
  links = two_elements;
  address = λ x. if x == 20 then 5000 else 4000;
  name = λ x. x + 1;
  bytes = λ _. 0;
  ksymbol_list = 100;
}

ksymbol_run :
    ksymbol_resolve 3 symbols 7 4100 ≡ some (record { address = 4000; name = 11; offset = 100 })
unfolding ksymbol_resolve resolve_from list_add list_runtime_init
ksymbol_run = refl

ksymbol_resolve-IsAt_example :
    (r : KsymbolResolve) × (ksymbol_resolve 3 symbols 7 4100 ≡ some r)
    × (((x : ℕ) × IsAmong x (20 ∷ 10 ∷ [])
          × IsAt symbols 4100 x r
          × AllFarther symbols 4100 r.offset (20 ∷ 10 ∷ []))
        ⊎ ((r.name ≡ 7) × AllFarther symbols 4100 (2 ^ 64 - 1) (20 ∷ 10 ∷ [])))
ksymbol_resolve-IsAt_example =
    ksymbol_resolve-IsAt 3 symbols 7 4100 (20 ∷ 10 ∷ []) two_elements-IsRing (omega arith)
