-- ===== src/Ring/Chain.antt =====
-- What a list of include/lib/list.h looks like in memory, and the walk over it.
use mint.Base.{
  ℕ, zero, suc, ◌<◌, List, [], ◌∷◌, some, ◌≡◌, ◌≢◌, ◌⊎◌, sym, ap, arith, length, ==_refl,
  ne→==-false,
}
use mint.Ring.{Links, set_next, set_prev, list_for_each, members}

-- From `a` the elements `xs` follow in turn, and then `b`, in both directions.
abbrev pub IsChain : Links → ℕ → List ℕ → ℕ → Type 0
IsChain links a [] b = (links.next a ≡ b) × (links.prev b ≡ a)
IsChain links a (x ∷ xs) b = (links.next a ≡ x) × (links.prev x ≡ a) × IsChain links x xs b

abbrev pub IsOutside : ℕ → List ℕ → Type 0
IsOutside p [] = Unit {0}
IsOutside p (x ∷ xs) = (p ≢ x) × IsOutside p xs

abbrev pub IsAmong : ℕ → List ℕ → Type 0
IsAmong x [] = ⊥
IsAmong x (y ∷ ys) = (x ≡ y) ⊎ IsAmong x ys

abbrev pub IsDistinct : List ℕ → Type 0
IsDistinct [] = Unit {0}
IsDistinct (x ∷ xs) = IsOutside x xs × IsDistinct xs

-- The list at `list` has the elements `xs`.
pub record IsRing (links : Links) (list : ℕ) (xs : List ℕ) : Type 0 where
  pub chain : IsChain links list xs list
  pub outside : IsOutside list xs
  pub distinct : IsDistinct xs

-- A store to an element that is not among those of a chain leaves the chain.
pub IsChain-set_next :
    (links : Links) (p v a b : ℕ) (xs : List ℕ)
    → p ≢ a
    → IsOutside p xs
    → IsChain links a xs b
    → IsChain (set_next links p v) a xs b
IsChain-set_next links p v a b [] ne o c = (rw (ne→==-false p a ne) c.0, c.1)
IsChain-set_next links p v a b (x ∷ xs) ne o c =
    (rw (ne→==-false p a ne) c.0, c.1, IsChain-set_next links p v x b xs o.0 o.1 c.2)

pub IsChain-set_prev :
    (links : Links) (p v a b : ℕ) (xs : List ℕ)
    → p ≢ b
    → IsOutside p xs
    → IsChain links a xs b
    → IsChain (set_prev links p v) a xs b
IsChain-set_prev links p v a b [] ne o c = (c.0, rw (ne→==-false p b ne) c.1)
IsChain-set_prev links p v a b (x ∷ xs) ne o c =
    (c.0, rw (ne→==-false p x o.0) c.1, IsChain-set_prev links p v x b xs ne o.1 c.2)

-- A walk along a chain to the end of the list visits its elements.
walk :
    (fuel : ℕ) (links : Links) (list a : ℕ) (xs : List ℕ)
    → IsOutside list xs
    → IsChain links a xs list
    → length xs < fuel
    → list_for_each fuel links list (links.next a) ≡ some xs
unfolding list_for_each
walk zero links list a xs o c h = absurd (omega arith)
walk (suc fuel) links list a [] o c h = rw (c.0, ==_refl list)
walk (suc fuel) links list a (x ∷ xs) o c h =
    let ne : x ≢ list = λ e. o.0 (sym e) in
    rw (c.0, ne→==-false x list ne, walk fuel links list x xs o.1 c.2 (omega arith))
      (ap (λ p. some (p ∷ xs)) c.0)

-- On a list with given elements, `list_for_each` stops and visits exactly those, in their order, and
-- a round for each of them and one more are fuel enough.
pub members_lem :
    (fuel : ℕ) (links : Links) (list : ℕ) (xs : List ℕ)
    → IsRing links list xs
    → length xs < fuel
    → members fuel links list ≡ some xs
members_lem fuel links list xs r h = walk fuel links list list xs r.outside r.chain h
