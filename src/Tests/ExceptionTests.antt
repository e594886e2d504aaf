-- ===== src/Tests/ExceptionTests.antt =====
-- cpu/exception.c and the dispatch of cpu/interrupt.c with handlers at 10 and 20.
use mint.Base.{ℕ, ◌+◌, ◌*◌, Option, none, some, [], ◌∷◌, ◌≡◌, refl, arith, ◌==◌, if◌then◌else◌}
use mint.Interrupt.{Handlers, interrupt_handler_register}
use mint.Interrupt.Circle.{IsHandled, interrupt_handler_register-IsHandled}
use mint.Irqchip.{Irqchip, interrupt_controller_ack}
use mint.Exception.{interrupt_dispatch}
use mint.Exception.Order.{interrupt_dispatch-register}
use mint.Tests.RingTests.{blank}
use mint.Tests.IrqchipTests.{enabled}

abbrev empty : Handlers
empty = record { links = blank; heads = λ _. 0 }

abbrev one_handler : Handlers
one_handler = interrupt_handler_register empty 3 10

one_handler-IsHandled : IsHandled one_handler 3 (10 ∷ [])
one_handler-IsHandled = interrupt_handler_register-IsHandled empty 3 10 [] (omega arith) tt refl

-- The handler at 10 adds one, and the one at 20 doubles.
abbrev function : ℕ → Option (Irqchip × ℕ → Irqchip × ℕ)
function x =
    if x == 10
    then some (λ (chip, n). (chip, n + 1))
    else if x == 20
    then some (λ (chip, n). (chip, n * 2))
    else none

interrupt_handler_register-IsHandled_example :
    IsHandled (interrupt_handler_register one_handler 3 20) 3 (10 ∷ 20 ∷ [])
interrupt_handler_register-IsHandled_example =
    interrupt_handler_register-IsHandled one_handler 3 20 (10 ∷ []) (omega arith) (omega arith, tt)
      one_handler-IsHandled

interrupt_dispatch-register_example :
    interrupt_dispatch 3 function (interrupt_handler_register one_handler 3 20) 3 (enabled, 4)
    ≡ some ((interrupt_controller_ack enabled 3).0, 10)
interrupt_dispatch-register_example =
    interrupt_dispatch-register 3 function one_handler 3 20 (10 ∷ []) (λ (chip, n). (chip, n * 2))
      (enabled, 4) (omega arith) (omega arith, tt) one_handler-IsHandled (omega arith) refl
