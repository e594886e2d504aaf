-- ===== src/Ring/Tail.antt =====
-- `list_add_tail` of include/lib/list.h: at the end of a chain.
use mint.Base.{ℕ, List, [], ◌∷◌, ◌++◌, ◌≡◌, ◌≢◌, refl, sym, ◌∙◌, ==_refl, ne→==-false}
use mint.Ring.{Links, set_next, set_prev, list_add_tail}
use mint.Ring.Chain.{IsChain, IsOutside, IsDistinct, IsRing, IsChain-set_next, IsChain-set_prev}

-- What stands before the end of a chain is its start or one of its elements.
prev_ne :
    (links : Links) (p a b : ℕ) (xs : List ℕ)
    → p ≢ a
    → IsOutside p xs
    → IsChain links a xs b
    → p ≢ links.prev b
prev_ne links p a b [] ne o ch = λ e. ne (e ∙ ch.1)
prev_ne links p a b (x ∷ xs) ne o ch = prev_ne links p x b xs o.0 o.1 ch.2

-- The last link of a chain leads to `e` instead, if `e` leads back to it.
retarget :
    (links : Links) (a b e : ℕ) (xs : List ℕ)
    → IsOutside a xs
    → IsDistinct xs
    → links.prev e ≡ links.prev b
    → IsChain links a xs b
    → IsChain (set_next links (links.prev b) e) a xs e
retarget links a b e [] o d back ch = (rw (ch.1, ==_refl a) refl, back ∙ ch.1)
retarget links a b e (x ∷ xs) o d back ch =
    let ne : a ≢ links.prev b = prev_ne links a x b xs o.0 o.1 ch.2 in
    (
      rw (ne→==-false (links.prev b) a (λ q. ne (sym q))) ch.0,
      ch.1,
      retarget links x b e xs d.0 d.1 back ch.2,
    )

snoc-IsChain :
    (links : Links) (a b e : ℕ) (xs : List ℕ)
    → links.next e ≡ b
    → links.prev b ≡ e
    → IsChain links a xs e
    → IsChain links a (xs ++ e ∷ []) b
snoc-IsChain links a b e [] n p ch = (ch.0, ch.1, (n, p))
snoc-IsChain links a b e (x ∷ xs) n p ch = (ch.0, ch.1, snoc-IsChain links x b e xs n p ch.2)

pub IsOutside-snoc : (p e : ℕ) (xs : List ℕ) → p ≢ e → IsOutside p xs → IsOutside p (xs ++ e ∷ [])
IsOutside-snoc p e [] ne o = (ne, tt)
IsOutside-snoc p e (x ∷ xs) ne o = (o.0, IsOutside-snoc p e xs ne o.1)

IsDistinct-snoc : (e : ℕ) (xs : List ℕ) → IsOutside e xs → IsDistinct xs → IsDistinct (xs ++ e ∷ [])
IsDistinct-snoc e [] o d = (tt, tt)
IsDistinct-snoc e (x ∷ xs) o d =
    (IsOutside-snoc x e xs (λ q. o.0 (sym q)) d.0, IsDistinct-snoc e xs o.1 d.1)

-- Put in a list that does not have it, an element other than the head comes last, and the others
-- stay before it as they were, in both directions.
pub list_add_tail-IsRing :
    (links : Links) (list element : ℕ) (xs : List ℕ)
    → element ≢ list
    → IsOutside element xs
    → IsRing links list xs
    → IsRing (list_add_tail links list element) list (xs ++ element ∷ [])
unfolding list_add_tail
list_add_tail-IsRing links list element xs ne o r =
    let l₁ = set_next links element list in
    let l₂ = set_prev l₁ element (l₁.prev list) in
    let last = l₂.prev list in
    let l₃ = set_next l₂ last element in
    let c₁ = IsChain-set_next links element list list list xs ne o r.chain in
    let c₂ = IsChain-set_prev l₁ element (links.prev list) list list xs ne o c₁ in
    let same : l₂.prev element ≡ l₂.prev list =
      rw (==_refl element, ne→==-false element list ne) refl in
    let c₃ = retarget l₂ list list element xs r.outside r.distinct same c₂ in
    let c₄ = IsChain-set_prev l₃ list element list element xs (λ e. ne (sym e)) r.outside c₃ in
    let far : element ≢ last = prev_ne l₂ element list list xs ne o c₂ in
    record {
      chain =
          snoc-IsChain (set_prev l₃ list element) list list element xs
            (rw (ne→==-false last element (λ e. far (sym e)), ==_refl element) refl)
            (rw (==_refl list) refl) c₄;
      outside = IsOutside-snoc list element xs (λ e. ne (sym e)) r.outside;
      distinct = IsDistinct-snoc element xs o r.distinct;
    }
