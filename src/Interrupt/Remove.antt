-- ===== src/Interrupt/Remove.antt =====
-- LIST_REMOVE of cpu/interrupt.c on the first of several handlers.
use mint.Base.{ℕ, suc, [], ◌∷◌, some, ◌≡◌, ◌≢◌, refl, ==_refl, ne→==-false}
use mint.Ring.{Links}
use mint.Interrupt.{Handlers, interrupt_handler_unregister, for_each, dispatched}

-- A handler that is linked to itself is the only one that a walk from it visits.
for_each_self :
    (fuel : ℕ) (links : Links) (head : ℕ)
    → head ≢ 0
    → links.next head ≡ head
    → for_each (suc (suc fuel)) links head head ≡ some (head ∷ [])
unfolding for_each
for_each_self fuel links head ne e = rw (e, ==_refl head, ne→==-false head 0 ne) refl

-- What is left of the first handler.
after_unregister :
    (h : Handlers) (number head : ℕ)
    → h.heads number ≡ head
    → h.links.next head ≢ head
    → let h' = interrupt_handler_unregister h number head in
      (h'.heads number ≡ head) × (h'.links.next head ≡ head)
unfolding interrupt_handler_unregister
after_unregister h number head e others =
    rw (ne→==-false (h.links.next head) head others, e, ==_refl head, ==_refl number)
      (refl, rw (==_refl head))

-- If the first handler of an interrupt is unregistered while there are others, `interrupt_handlers`
-- still points to it, and it is linked to itself: from then on it alone is called, and the others,
-- which are still registered, are not.
pub unregister_first_lost :
    (fuel : ℕ) (h : Handlers) (number : ℕ)
    → h.heads number ≢ 0
    → h.links.next (h.heads number) ≢ h.heads number
    → dispatched (suc (suc fuel)) (interrupt_handler_unregister h number (h.heads number)) number
      ≡ some (h.heads number ∷ [])
unregister_first_lost fuel h number some_head others =
    let (same, self) = after_unregister h number (h.heads number) refl others in
    let h' = interrupt_handler_unregister h number (h.heads number) in
    rw (same, ne→==-false (h.heads number) 0 some_head)
      (for_each_self fuel h'.links (h.heads number) some_head self)
