-- ===== src/Exception.antt =====
-- cpu/exception.c, and `interrupt_dispatch` of cpu/interrupt.c. The handler functions are a parameter:
-- what each does to a state, and `none` is a `NULL` function. A handler goes by its address.
pub mod Order
use mint.Base.{ℕ, List, [], ◌∷◌, Option, none, some, ◌>>=◌, ◌==◌, if◌then◌else◌}
use mint.Interrupt.{
  Mask, Handlers, interrupt_disable, interrupt_handler_register, interrupt_handler_unregister,
  for_each, dispatched,
}
use mint.Irqchip.{Irqchip, interrupt_controller_ack}

abbrev pub call_if : {A : Type 0} → Option (A → A) → A → A
call_if none a = a
call_if (some f) a = f a

-- The calls of the handlers of a list, one after the other.
abbrev pub handle : {A : Type 0} → (ℕ → Option (A → A)) → List ℕ → A → A
handle function [] a = a
handle function (x ∷ xs) a = handle function xs (call_if (function x) a)

-- The handlers change the interrupt controllers and a state of their own.
unfoldable pub interrupt_dispatch :
    {A : Type 0}
    → ℕ
    → (ℕ → Option (Irqchip × A → Irqchip × A))
    → Handlers
    → ℕ
    → Irqchip × A
    → Option (Irqchip × A)
interrupt_dispatch fuel function h int_no s = dispatched fuel h int_no >>= λ visited.
    let (chips, a) = handle function visited s in
    some ((interrupt_controller_ack chips int_no).0, a)

-- The macros are those of cpu/interrupt.c.
unfoldable pub exception_handler_register : Handlers → ℕ → ℕ → Handlers
exception_handler_register h number handler = interrupt_handler_register h number handler

unfoldable pub exception_handler_unregister : Handlers → ℕ → ℕ → Handlers
exception_handler_unregister h number handler = interrupt_handler_unregister h number handler

-- How a dispatch ends: the handlers have run, or the processor halts for good.
pub data Dispatch (A : Type 0) : Type 0 where
  resumed : A → Dispatch A
  halted : Mask → Dispatch A

unfoldable pub exception_dispatch :
    {A : Type 0} → ℕ → (ℕ → Option (A → A)) → Handlers → ℕ → Mask → A → Option (Dispatch A)
exception_dispatch fuel function h int_no cpu a =
    let visited = for_each fuel h.links (h.heads int_no) (h.heads int_no) in
    if h.heads int_no == 0
    then some (halted (interrupt_disable cpu))
    else (visited >>= λ xs. some (resumed (handle function xs a)))
