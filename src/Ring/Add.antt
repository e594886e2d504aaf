-- ===== src/Ring/Add.antt =====
-- `list_runtime_init`, `list_add` and `list_add_tail` of include/lib/list.h.
use mathlib.Core.Path.{subst}
use mint.Base.{ℕ, List, [], ◌∷◌, ◌≡◌, ◌≢◌, refl, sym, arith, ==_refl, ne→==-false}
use mint.Ring.{Links, set_next, set_prev, list_runtime_init, list_add}
use mint.Ring.Chain.{IsChain, IsOutside, IsRing, IsChain-set_next, IsChain-set_prev}

-- A fresh list is empty.
pub list_runtime_init-IsRing :
    (links : Links) (list : ℕ) → IsRing (list_runtime_init links list) list []
unfolding list_runtime_init
list_runtime_init-IsRing links list = record {
  chain = (rw (==_refl list), rw (==_refl list));
  outside = tt;
  distinct = tt;
}

-- Put in a list that does not have it, an element comes first and the others follow as before.
pub list_add-IsRing :
    (links : Links) (list element : ℕ) (xs : List ℕ)
    → element ≢ list
    → IsOutside element xs
    → IsRing links list xs
    → IsRing (list_add links list element) list (element ∷ xs)
unfolding list_add
list_add-IsRing links list element [] ne o r = record {
  chain = ground (arith, r.chain);
  outside = (λ e. ne (sym e), tt);
  distinct = (tt, tt);
}
list_add-IsRing links list element (x ∷ xs) ne o r =
    let l₁ = set_next links element (links.next list) in
    let next_list : l₁.next list ≡ x = rw (ne→==-false element list ne) r.chain.0 in
    record {
      chain = (
        rw (==_refl list) refl,
        ground (arith, r.chain.0, o.0),
        (
          ground (arith, r.chain.0),
          ground (arith, r.chain.0),
          subst
              (λ h.
                IsChain (set_next (set_prev (set_prev l₁ element list) h element) list element) x xs
                  list)
              (sym next_list)
              (IsChain-set_next (set_prev (set_prev l₁ element list) x element) list element x list
                xs r.outside.0 r.outside.1
                (IsChain-set_prev (set_prev l₁ element list) x element x list xs
                  (λ e. r.outside.0 (sym e)) r.distinct.0
                  (IsChain-set_prev l₁ element list x list xs ne o.1 (
                    IsChain-set_next links element (links.next list) x list xs o.0 o.1
                      r.chain.2)))),
        ),
      );
      outside = (λ e. ne (sym e), r.outside);
      distinct = (o, r.distinct);
    }
