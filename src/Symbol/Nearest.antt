-- ===== src/Symbol/Nearest.antt =====
-- Which symbol `ksymbol_resolve` of kernel/symbol.c finds.
use native.Mathlib.Decide.{dec_lt}
use mint.Base.{
  ℕ, zero, suc, ◌+◌, ◌-◌, ◌^◌, ◌≤◌, ◌<◌, List, [], ◌∷◌, length, some, ◌≡◌, ◌≢◌, ◌⊎◌, inl, inr, refl,
  sym, ap, arith, ==_refl, ne→==-false, lt→ltb, not_lt→ltb, le→leb, gt→leb,
}
use mint.Ring.Chain.{IsAmong, IsChain, IsOutside, IsRing}
use mint.Symbol.{Symbols, KsymbolResolve, nearer, resolve_from, ksymbol_resolve}

-- The rounds over the symbols of a list.
abbrev nearest : Symbols → ℕ → KsymbolResolve × ℕ → List ℕ → KsymbolResolve × ℕ
nearest s address best [] = best
nearest s address best (x ∷ xs) = nearest s address (nearer s address x best) xs

walk :
    (fuel : ℕ) (s : Symbols) (address a : ℕ) (xs : List ℕ) (best : KsymbolResolve × ℕ)
    → IsOutside s.ksymbol_list xs
    → IsChain s.links a xs s.ksymbol_list
    → length xs < fuel
    → resolve_from fuel s address (s.links.next a) best ≡ some (nearest s address best xs)
unfolding resolve_from
walk zero s address a xs best o ch h = absurd (omega arith)
walk (suc fuel) s address a [] best o ch h = rw (ch.0, ==_refl s.ksymbol_list) refl
walk (suc fuel) s address a (x ∷ xs) best o ch h =
    let ne : x ≢ s.ksymbol_list = λ e. o.0 (sym e) in
    rw (ch.0, ne→==-false x s.ksymbol_list ne)
      (walk fuel s address x xs (nearer s address x best) o.1 ch.2 (omega arith))

-- Every symbol of a list is above the address, or at least as far below it as `difference`.
abbrev pub AllFarther : Symbols → ℕ → ℕ → List ℕ → Type 0
AllFarther s address difference [] = Unit {0}
AllFarther s address difference (x ∷ xs) =
    ((address < s.address x) ⊎ (difference + s.address x ≤ address))
    × AllFarther s address difference xs

-- `resolve` is the symbol `x`, and the address lies `difference` behind it.
pub record IsAt (s : Symbols) (address x : ℕ) (resolve : KsymbolResolve) : Type 0 where
  pub start : resolve.address ≡ s.address x
  pub named : resolve.name ≡ s.name x
  pub behind : resolve.address + resolve.offset ≡ address

-- One round: either nothing changes and the symbol is farther, or the symbol is taken.
round_cases :
    (s : Symbols) (address x : ℕ) (resolve : KsymbolResolve) (difference : ℕ)
    → ((nearer s address x (resolve, difference) ≡ (resolve, difference))
        × ((address < s.address x) ⊎ (difference + s.address x ≤ address)))
      ⊎ ((nearer s address x (resolve, difference) ≡ (
        record { address = s.address x; name = s.name x; offset = address - s.address x },
        address - s.address x,
      ))
          × (s.address x ≤ address)
          × (address - s.address x < difference))
round_cases s address x resolve difference = elim (dec_lt address (s.address x)) [
  | yes above ↦ inl (rw (gt→leb (s.address x) address above) refl, inl above)
  | no below ↦ elim (dec_lt (address - s.address x) difference) [
    | yes near ↦ inr (
      rw
          (
            le→leb (s.address x) address (omega arith),
            lt→ltb (address - s.address x) difference near,
          )
          refl,
      omega arith,
      near,
    )
    | no far ↦ inl (
      rw
          (
            le→leb (s.address x) address (omega arith),
            not_lt→ltb (address - s.address x) difference (omega arith),
          )
          refl,
      inr (omega arith),
    )
  ]
]

AllFarther-le :
    (s : Symbols) (address d d' : ℕ) (xs : List ℕ)
    → d ≤ d'
    → AllFarther s address d' xs
    → AllFarther s address d xs
AllFarther-le s address d d' [] le all = tt
AllFarther-le s address d d' (x ∷ xs) le (inl above, all) =
    (inl above, AllFarther-le s address d d' xs le all)
AllFarther-le s address d d' (x ∷ xs) le (inr far, all) =
    (inr (omega arith), AllFarther-le s address d d' xs le all)

-- What the rounds end with, from `best` on.
record IsNearest (s : Symbols) (address : ℕ) (xs : List ℕ) (best end : KsymbolResolve × ℕ)
    : Type 0 where
  pub closer : end.1 ≤ best.1
  pub farther : AllFarther s address end.1 xs
  pub found :
      (end ≡ best) ⊎ ((x : ℕ) × IsAmong x xs × IsAt s address x end.0 × (end.0.offset ≡ end.1))

-- A round before the others.
combine :
    (s : Symbols) (address x : ℕ) (xs : List ℕ) (best end : KsymbolResolve × ℕ)
    → IsNearest s address xs (nearer s address x best) end
    → IsNearest s address (x ∷ xs) best end
combine s address x xs (resolve, difference) end rest =
    elim (round_cases s address x resolve difference) [
      | inl (e, inl above) ↦
          let same = rw e at rest in
          record {
            closer = same.closer;
            farther = (inl above, same.farther);
            found = elim same.found [
              | inl kept ↦ inl kept
              | inr (y, among, at, d) ↦ inr (y, inr among, at, d)
            ];
          }
      | inl (e, inr away) ↦
          let same = rw e at rest in
          record {
            closer = same.closer;
            farther = (inr (omega (arith, same.closer)), same.farther);
            found = elim same.found [
              | inl kept ↦ inl kept
              | inr (y, among, at, d) ↦ inr (y, inr among, at, d)
            ];
          }
      | inr (e, below, near) ↦
          let taken = rw e at rest in
          record {
            closer = omega (arith, taken.closer);
            farther = (inr (omega (arith, taken.closer)), taken.farther);
            found = elim taken.found [
              | inl kept ↦ inr (
                x,
                inl refl,
                rw kept (record { start = refl; named = refl; behind = omega arith }),
                rw kept refl,
              )
              | inr (y, among, at, d) ↦ inr (y, inr among, at, d)
            ];
          }
    ]

nearest-IsNearest :
    (s : Symbols) (address : ℕ) (xs : List ℕ) (best : KsymbolResolve × ℕ)
    → IsNearest s address xs best (nearest s address best xs)
nearest-IsNearest s address [] best = record {
  closer = omega arith;
  farther = tt;
  found = inl refl;
}
nearest-IsNearest s address (x ∷ xs) best =
    combine s address x xs best (nearest s address best (x ∷ xs))
      (nearest-IsNearest s address xs (nearer s address x best))

-- On a list of symbols, `ksymbol_resolve` stops. It gives a symbol of the list that is at or below the
-- address, with how far behind it the address lies, and every other symbol is above the address or no
-- nearer; or it gives the unknown name, and every symbol is above the address or 2^64 - 1 below it.
pub ksymbol_resolve-IsAt :
    (fuel : ℕ) (s : Symbols) (unknown address : ℕ) (xs : List ℕ)
    → IsRing s.links s.ksymbol_list xs
    → length xs < fuel
    → (r : KsymbolResolve) × (ksymbol_resolve fuel s unknown address ≡ some r)
      × (((x : ℕ) × IsAmong x xs × IsAt s address x r × AllFarther s address r.offset xs)
          ⊎ ((r.name ≡ unknown) × AllFarther s address (2 ^ 64 - 1) xs))
unfolding ksymbol_resolve
ksymbol_resolve-IsAt fuel s unknown address xs ring enough =
    let first : KsymbolResolve = record { address = 0; name = unknown; offset = 0 } in
    let end = nearest s address (first, 2 ^ 64 - 1) xs in
    let near = nearest-IsNearest s address xs (first, 2 ^ 64 - 1) in
    (
      end.0,
      rw (walk fuel s address s.ksymbol_list xs (first, 2 ^ 64 - 1) ring.outside ring.chain enough)
          refl,
      elim near.found [
        | inl kept ↦ inr (ap (λ t. t.0.name) kept, rw kept at near.farther)
        | inr (x, among, at, d) ↦ inl (x, among, at, rw d near.farther)
      ],
    )
