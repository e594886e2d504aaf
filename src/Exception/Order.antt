-- ===== src/Exception/Order.antt =====
-- The order in which the handlers of an interrupt or an exception run.
use mint.Base.{
  ℕ, ◌+◌, ◌<◌, List, [], ◌∷◌, ◌++◌, length, length-append, Option, some, ◌≡◌, ◌≢◌, refl, arith, sym,
  ne→==-false,
}
use mint.Ring.Chain.{IsOutside}
use mint.Interrupt.{Mask, Handlers, interrupt_handler_register, interrupt_disable}
use mint.Interrupt.Circle.{IsHandled, interrupt_handler_register-IsHandled, dispatched_lem, around}
use mint.Irqchip.{Irqchip, interrupt_controller_ack}
use mint.Exception.{call_if, handle, interrupt_dispatch, resumed, halted, exception_dispatch}

handle_last :
    {A : Type 0} (function : ℕ → Option (A → A)) (xs : List ℕ) (x : ℕ) (f : A → A) (a : A)
    → function x ≡ some f
    → handle function (xs ++ x ∷ []) a ≡ f (handle function xs a)
handle_last function [] x f a e = rw e refl
handle_last function (y ∷ xs) x f a e = handle_last function xs x f (call_if (function y) a) e

-- After a handler with a function has been registered, an interrupt runs the handlers that were there
-- before, in turn, then the new one, and then acknowledges the interrupt.
pub interrupt_dispatch-register :
    {A : Type 0} (fuel : ℕ) (function : ℕ → Option (Irqchip × A → Irqchip × A)) (h : Handlers)
    (number handler : ℕ) (xs : List ℕ) (f : Irqchip × A → Irqchip × A) (s : Irqchip × A)
    → 0 ≢ handler
    → IsOutside handler xs
    → IsHandled h number xs
    → length xs + 1 < fuel
    → function handler ≡ some f
    → let (chips, a) = f (handle function xs s) in
      interrupt_dispatch fuel function (interrupt_handler_register h number handler) number s
      ≡ some ((interrupt_controller_ack chips number).0, a)
unfolding interrupt_dispatch
interrupt_dispatch-register fuel function h number handler xs f s ne o known enough e =
    let added = interrupt_handler_register-IsHandled h number handler xs ne o known in
    let visits =
      dispatched_lem fuel (interrupt_handler_register h number handler) number (xs ++ handler ∷ [])
        added (omega (arith, length-append xs (handler ∷ []))) in
    rw (visits, handle_last function xs handler f s e) refl

-- An exception with handlers runs them in turn, and one without turns interrupts off and halts.
pub exception_dispatch_lem :
    {A : Type 0} (fuel : ℕ) (function : ℕ → Option (A → A)) (h : Handlers) (number : ℕ)
    (xs : List ℕ) (cpu : Mask) (a : A)
    → IsHandled h number xs
    → length xs < fuel
    → exception_dispatch fuel function h number cpu a
      ≡ some (elim xs [
        | [] ↦ halted (interrupt_disable cpu)
        | x ∷ rest ↦ resumed (handle function (x ∷ rest) a)
      ])
unfolding exception_dispatch
exception_dispatch_lem fuel function h number [] cpu a none_yet enough = rw none_yet refl
exception_dispatch_lem fuel function h number (x ∷ xs) cpu a known enough =
    let (at, ne, o, r) = known in
    let visits = around fuel h.links x x xs ne o r.outside r.chain (omega arith) in
    rw (at, ne→==-false x 0 (λ e. ne (sym e)), visits) refl
