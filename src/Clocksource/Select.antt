-- ===== src/Clocksource/Select.antt =====
-- Which clock source kernel/time/clocksource.c takes.
use mint.Base.{
  ℕ, zero, suc, ◌+◌, ◌≤◌, ◌<◌, List, [], ◌∷◌, length, Bool, true, false, Option, none, some, ◌≡◌,
  ◌≢◌, refl, sym, arith, ltb, ==_refl, ne→==-false, Bool-cases, inl, inr,
}
use mint.Ring.{list_add}
use mint.Ring.Chain.{IsChain, IsOutside, IsRing}
use mint.Ring.Add.{list_add-IsRing}
use mint.Time.{time_update_clocksource}
use mint.Clocksource.{
  Clocksources, better, select_from, switched, clocksource_select, clocksource_register,
}

-- The choice after the clock sources of a list.
abbrev best : (ℕ → ℕ) → Option ℕ → List ℕ → Option ℕ
best rating current [] = current
best rating current (cs ∷ rest) = best rating (some (better rating current cs)) rest

walk :
    (fuel : ℕ) (c : Clocksources) (a cs : ℕ) (rest : List ℕ) (current : Option ℕ) (changed : Bool)
    → IsOutside c.clocksource_list (cs ∷ rest)
    → IsChain c.links a (cs ∷ rest) c.clocksource_list
    → length (cs ∷ rest) < fuel
    → select_from fuel c (c.links.next a) current changed
      ≡ some (best c.rating current (cs ∷ rest), true)
unfolding select_from
walk zero c a cs rest current changed o ch h = absurd (omega arith)
walk (suc zero) c a cs [] current changed o ch h = absurd (omega arith)
walk (suc (suc fuel)) c a cs [] current changed o ch h =
    let ne : cs ≢ c.clocksource_list = λ e. o.0 (sym e) in
    rw (ch.0, ne→==-false cs c.clocksource_list ne, ch.2.0, ==_refl c.clocksource_list) refl
walk (suc fuel) c a cs (d ∷ rest) current changed o ch h =
    let ne : cs ≢ c.clocksource_list = λ e. o.0 (sym e) in
    rw (ch.0, ne→==-false cs c.clocksource_list ne)
      (walk fuel c cs d rest (some (better c.rating current cs)) true o.1 ch.2 (omega arith))

-- Every clock source of a list has at most the rating of `cs`.
abbrev pub AllAtMost : (ℕ → ℕ) → List ℕ → ℕ → Type 0
AllAtMost rating [] cs = Unit {0}
AllAtMost rating (d ∷ ds) cs = (rating d ≤ rating cs) × AllAtMost rating ds cs

AllAtMost-le :
    (rating : ℕ → ℕ) (ds : List ℕ) (x y : ℕ)
    → rating x ≤ rating y
    → AllAtMost rating ds x
    → AllAtMost rating ds y
AllAtMost-le rating [] x y le all = tt
AllAtMost-le rating (d ∷ ds) x y le all =
    (omega (arith, all.0), AllAtMost-le rating ds x y le all.1)

better_most :
    (rating : ℕ → ℕ) (current : Option ℕ) (cs : ℕ) → rating cs ≤ rating (better rating current cs)
better_most rating none cs = omega arith
better_most rating (some x) cs = elim (Bool-cases (ltb (rating x) (rating cs))) [
  | inl e ↦ rw e (omega arith)
  | inr e ↦ rw e (ground (arith, e))
]

better_kept : (rating : ℕ → ℕ) (x cs : ℕ) → rating x ≤ rating (better rating (some x) cs)
better_kept rating x cs = elim (Bool-cases (ltb (rating x) (rating cs))) [
  | inl e ↦ rw e (ground (arith, e))
  | inr e ↦ rw e (omega arith)
]

best_most :
    (rating : ℕ → ℕ) (y : ℕ) (ds : List ℕ)
    → (x : ℕ) × (best rating (some y) ds ≡ some x) × (rating y ≤ rating x) × AllAtMost rating ds x
best_most rating y [] = (y, refl, omega arith, tt)
best_most rating y (d ∷ ds) =
    let next = better rating (some y) d in
    let (x, e, le, all) = best_most rating next ds in
    (
      x,
      e,
      omega (arith, le, better_kept rating y d),
      (omega (arith, le, better_most rating (some y) d), all),
    )

-- On a list of clock sources that does not have it, registering one more stops, and makes one current
-- that is rated at least as high as all of the list and the new one. The clock counts by its frequency
-- from what it reads.
pub clocksource_register-AllAtMost :
    (fuel : ℕ) (read : ℕ → ℕ) (c : Clocksources) (cs : ℕ) (others : List ℕ)
    → IsRing c.links c.clocksource_list others
    → cs ≢ c.clocksource_list
    → IsOutside cs others
    → length others + 1 < fuel
    → (t : Clocksources) × (x : ℕ) × (clocksource_register fuel read c cs ≡ some t)
      × (t.current_clocksource ≡ some x)
      × AllAtMost c.rating (cs ∷ others) x
      × (t.time ≡ time_update_clocksource (c.frequency x) (read x) c.time)
unfolding clocksource_register clocksource_select
clocksource_register-AllAtMost fuel read c cs others ring ne o enough =
    let added = record c { links = list_add c.links c.clocksource_list cs } in
    let ring' = list_add-IsRing c.links c.clocksource_list cs others ne o ring in
    let runs =
      walk fuel added c.clocksource_list cs others c.current_clocksource false ring'.outside
        ring'.chain (omega arith) in
    let first = better c.rating c.current_clocksource cs in
    let (x, e, le, all) = best_most c.rating first others in
    (
      switched read added (some x) true,
      x,
      rw (runs, e) refl,
      refl,
      (omega (arith, le, better_most c.rating c.current_clocksource cs), all),
      refl,
    )
