-- ===== src/Interrupt/Circle.antt =====
-- The circles of handlers of cpu/interrupt.c: registration, and the walk of LIST_FOR_EACH.
use mint.Base.{
  ℕ, zero, suc, ◌+◌, ◌<◌, List, [], ◌∷◌, ◌++◌, length, some, ◌≡◌, ◌≢◌, refl, sym, arith, ==_refl,
  ne→==-false,
}
use mint.Ring.{Links, list_add_tail}
use mint.Ring.Chain.{IsChain, IsOutside, IsRing}
use mint.Ring.Tail.{list_add_tail-IsRing, IsOutside-snoc}
use mint.Interrupt.{Handlers, with_head, interrupt_handler_register, for_each, dispatched}

-- The handlers of an interrupt, in turn: the first one is the head, and a circle leads through the
-- others back to it.
abbrev pub IsHandled : Handlers → ℕ → List ℕ → Type 0
IsHandled h number [] = h.heads number ≡ 0
IsHandled h number (x ∷ xs) = (h.heads number ≡ x) × (0 ≢ x) × IsOutside 0 xs × IsRing h.links x xs

register_more :
    (h : Handlers) (number handler head : ℕ)
    → h.heads number ≡ head
    → 0 ≢ head
    → interrupt_handler_register h number handler
      ≡ with_head h (list_add_tail h.links head handler) number head
unfolding interrupt_handler_register list_add_tail
register_more h number handler head e ne = rw (e, ne→==-false head 0 (λ e. ne (sym e))) refl

-- A handler that is registered comes last.
pub interrupt_handler_register-IsHandled :
    (h : Handlers) (number handler : ℕ) (xs : List ℕ)
    → 0 ≢ handler
    → IsOutside handler xs
    → IsHandled h number xs
    → IsHandled (interrupt_handler_register h number handler) number (xs ++ handler ∷ [])
unfolding interrupt_handler_register
interrupt_handler_register-IsHandled h number handler [] ne o none_yet = rw none_yet (
  rw (==_refl number) refl,
  ne,
  tt,
  record {
    chain = (rw (==_refl handler) refl, rw (==_refl handler) refl);
    outside = tt;
    distinct = tt;
  },
)
interrupt_handler_register-IsHandled h number handler (x ∷ xs) ne o (at, ne', o', r) =
    rw (register_more h number handler x at ne') (
      rw (==_refl number) refl,
      ne',
      IsOutside-snoc 0 handler xs ne o',
      list_add_tail-IsRing h.links x handler xs o.0 o.1 r,
    )

last_visit :
    (fuel : ℕ) (links : Links) (head a : ℕ)
    → 0 ≢ a
    → links.next a ≡ head
    → for_each (suc (suc fuel)) links head a ≡ some (a ∷ [])
unfolding for_each
last_visit fuel links head a ne e = rw (ne→==-false a 0 (λ e. ne (sym e)), e, ==_refl head) refl

next_visit :
    (fuel : ℕ) (links : Links) (head a x : ℕ) (rest : List ℕ)
    → 0 ≢ a
    → links.next a ≡ x
    → head ≢ x
    → for_each fuel links head x ≡ some rest
    → for_each (suc fuel) links head a ≡ some (a ∷ rest)
unfolding for_each
next_visit fuel links head a x rest ne e ne' runs =
    rw (ne→==-false a 0 (λ e. ne (sym e)), e, ne→==-false x head (λ e. ne' (sym e)), runs) refl

pub around :
    (fuel : ℕ) (links : Links) (head a : ℕ) (xs : List ℕ)
    → 0 ≢ a
    → IsOutside 0 xs
    → IsOutside head xs
    → IsChain links a xs head
    → length xs + 1 < fuel
    → for_each fuel links head a ≡ some (a ∷ xs)
around zero links head a xs ne o o' ch h = absurd (omega arith)
around (suc zero) links head a xs ne o o' ch h = absurd (omega arith)
around (suc (suc fuel)) links head a [] ne o o' ch h = last_visit fuel links head a ne ch.0
around (suc (suc fuel)) links head a (x ∷ xs) ne o o' ch h =
    next_visit (suc fuel) links head a x (x ∷ xs) ne ch.0 o'.0
      (around (suc fuel) links head x xs o.0 o.1 o'.1 ch.2 (omega arith))

-- The dispatch of an interrupt stops and visits its handlers in turn, each once.
pub dispatched_lem :
    (fuel : ℕ) (h : Handlers) (number : ℕ) (xs : List ℕ)
    → IsHandled h number xs
    → length xs < fuel
    → dispatched fuel h number ≡ some xs
dispatched_lem fuel h number [] none_yet enough = rw none_yet refl
dispatched_lem fuel h number (x ∷ xs) (at, ne, o, r) enough =
    rw (at, ne→==-false x 0 (λ e. ne (sym e)))
      (around fuel h.links x x xs ne o r.outside r.chain (omega arith))
